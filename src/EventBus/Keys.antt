-- ===== src/EventBus/Keys.antt =====
-- Scan ids as the bus bounds them.
use autoforge.Common.Result.{ok, ok-injective}
use autoforge.Common.{
  ℕ, ◌≤◌, ◌<◌, ◌≡◌, arith, length, take, length-take, if◌then◌else◌, inl, inr, ltb, nat_eqb,
  Bool-cases, tests,
}
use autoforge.Common.Texts.{Text, trim}
use autoforge.EventBus.{bound_scan_id}

-- Cutting at n keeps a text that is not empty so, and leaves at most n units.
cut_bounds :
    (n : ℕ) (t : Text) {key : Text}
    → 0 < n
    → 0 < length t
    → (if ltb n (length t) then take n t else t) ≡ key
    → (0 < length key) × (length key ≤ n)
cut_bounds n t p q e = elim (Bool-cases (ltb n (length t))) [
  | inl long ↦ rw (← e, long) (omega (tests, length-take n t), omega (tests, length-take n t))
  | inr short ↦ rw (← e, short) (q, ground arith)
]

-- A key that the bus accepts is not empty and has at most 64 code units.
pub bound_scan_id_bounds :
    (scan_id key : Text) → bound_scan_id scan_id ≡ ok key → (0 < length key) × (length key ≤ 64)
unfolding bound_scan_id
bound_scan_id_bounds scan_id key h = elim (Bool-cases (nat_eqb (length (trim scan_id)) 0)) [
  | inl blank ↦ absurd (cc (rw blank at h))
  | inr some_text ↦
      cut_bounds 64 (trim scan_id) (omega arith) (ground arith) (ok-injective (rw some_text at h))
]
