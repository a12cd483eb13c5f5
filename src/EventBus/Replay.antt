-- ===== src/EventBus/Replay.antt =====
-- Rings and replays as slices of a numbered log.
use autoforge.Events.{AmassEvent}
use autoforge.EventBus.{shift_to}
use autoforge.Common.{
  ◌+◌, ◌-◌, ◌≤◌, ◌≡◌, ◌∙◌, ◌∷◌, ◌++◌, ℕ, zero, suc, refl, ap, subst, inl, inr, List, [], arith, ltb,
  Bool-cases, length, drop, filter, sym, true, false, tests, length-append, length-drop, ltb→lt,
}
use native.Mathlib.Decide.{dec_le}

-- The last n items.
abbrev pub last_n {ℓ} : {A : Type ℓ} → ℕ → List A → List A
last_n n xs = drop (length xs - n) xs

-- The events carry the numbers n + 1, n + 2, ….
abbrev pub IsNumbered : ℕ → List AmassEvent → Type 0
IsNumbered n [] = Unit
IsNumbered n (event ∷ log) = (event.sequence ≡ suc n) × IsNumbered (suc n) log

module _ {ℓ} {A : Type ℓ} where
  pub drop_all : (n : ℕ) (xs : List A) → length xs ≤ n → drop n xs ≡ []
  drop_all zero [] h = refl
  drop_all zero (x ∷ xs) h = elim h [ ]
  drop_all (suc n) [] h = refl
  drop_all (suc n) (x ∷ xs) h = drop_all n xs (omega arith)

  pub drop-nil : (n : ℕ) → ◌≡◌ {A = List A} (drop n []) []
  drop-nil zero = refl
  drop-nil (suc n) = refl

  pub drop-drop : (m n : ℕ) (xs : List A) → drop m (drop n xs) ≡ drop (n + m) xs
  drop-drop m zero xs = let step : m ≡ 0 + m = omega arith in ap (λ k. drop k xs) step
  drop-drop m (suc n) [] = drop-nil m ∙ sym (drop-nil (suc n + m))
  drop-drop m (suc n) (x ∷ xs) =
      let step : suc (n + m) ≡ suc n + m = omega arith in
      drop-drop m n xs ∙ ap (λ k. drop k (x ∷ xs)) step

  pub drop-append : (n : ℕ) (xs ys : List A) → n ≤ length xs → drop n (xs ++ ys) ≡ drop n xs ++ ys
  drop-append zero xs ys h = refl
  drop-append (suc n) [] ys h = elim h [ ]
  drop-append (suc n) (x ∷ xs) ys h = drop-append n xs ys (omega arith)

-- Shifting a ring down to its cap keeps the newest events.
pub shift_to-last_n : (n : ℕ) (ring : List AmassEvent) → shift_to n ring ≡ last_n n ring
unfolding shift_to
shift_to-last_n n [] = sym (drop-nil (0 - n))
shift_to-last_n n (event ∷ ring) = elim (Bool-cases (ltb n (suc (length ring)))) [
  | inl long ↦
      let step : suc (length ring) - n ≡ suc (length ring - n) =
        omega (tests, ltb→lt n (suc (length ring)) long) in
      rw long (shift_to-last_n n ring ∙ sym (ap (λ k. drop k (event ∷ ring)) step))
  | inr short ↦
      let step : suc (length ring) - n ≡ 0 = ground arith in
      rw short (sym (ap (λ k. drop k (event ∷ ring)) step))
]

-- Capping, then pushing and capping again, is capping the whole log.
pub last_n-last_n {ℓ} :
    {A : Type ℓ} (n : ℕ) (log : List A) (x : A)
    → last_n n (last_n n log ++ x ∷ []) ≡ last_n n (log ++ x ∷ [])
last_n-last_n n log x = elim (dec_le (length log) n) [
  | yes short ↦
      let step : length log - n ≡ 0 = omega arith in
      ap (λ l. last_n n (l ++ x ∷ [])) (ap (λ k. drop k log) step)
  | no long ↦
      let k = length log - n in
      let kept : length (drop k log ++ x ∷ []) - n ≡ 1 =
        omega (arith, length-append (drop k log) (x ∷ []), length-drop k log) in
      let cut : k + 1 ≡ length (log ++ x ∷ []) - n = omega (arith, length-append log (x ∷ [])) in
      ap (λ j. drop j (drop k log ++ x ∷ [])) kept
      ∙ ap (drop 1) (sym (drop-append k log (x ∷ []) (omega arith)))
      ∙ drop-drop 1 k (log ++ x ∷ [])
      ∙ ap (λ j. drop j (log ++ x ∷ [])) cut
]

pub IsNumbered-append :
    (n : ℕ) (log : List AmassEvent) (event : AmassEvent)
    → IsNumbered n log
    → event.sequence ≡ suc (n + length log)
    → IsNumbered n (log ++ event ∷ [])
IsNumbered-append n [] event h e = (omega arith, tt)
IsNumbered-append n (x ∷ log) event h e =
    (h.0, IsNumbered-append (suc n) log event h.1 (omega arith))

pub IsNumbered-drop :
    (n k : ℕ) (log : List AmassEvent)
    → k ≤ length log
    → IsNumbered n log
    → IsNumbered (n + k) (drop k log)
IsNumbered-drop n zero log p h = subst (λ m. IsNumbered m log) (omega arith) h
IsNumbered-drop n (suc k) [] p h = elim p [ ]
IsNumbered-drop n (suc k) (x ∷ log) p h =
    subst (λ m. IsNumbered m (drop k log)) (omega arith)
      (IsNumbered-drop (suc n) k log (omega arith) h.1)

-- On a numbered log the filter of `replay` drops a prefix.
pub filter-drop :
    (n after : ℕ) (log : List AmassEvent)
    → IsNumbered n log
    → filter (λ event. ltb after event.sequence) log ≡ drop (after - n) log
filter-drop n after [] h = sym (drop-nil (after - n))
filter-drop n after (x ∷ log) h = elim (dec_le after n) [
  | yes kept ↦
      let here : ltb after x.sequence ≡ true = ground (arith, h.0) in
      let all_kept : after - suc n ≡ 0 = omega arith in
      let none_cut : after - n ≡ 0 = omega arith in
      rw here (
        ap (λ l. x ∷ l) (filter-drop (suc n) after log h.1 ∙ ap (λ k. drop k log) all_kept)
        ∙ sym (ap (λ k. drop k (x ∷ log)) none_cut))
  | no cut ↦
      let here : ltb after x.sequence ≡ false = ground (arith, h.0) in
      let step : after - n ≡ suc (after - suc n) = omega arith in
      rw here (filter-drop (suc n) after log h.1 ∙ sym (ap (λ k. drop k (x ∷ log)) step))
]
