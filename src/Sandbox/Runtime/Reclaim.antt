-- ===== src/Sandbox/Runtime/Reclaim.antt =====
-- `destroy` of runtime-sandbox.service.ts: what it leaves, and that it may be called again.
use autoforge.Common.Effect.{Keeps, throw, continue_with, return, modify, reads}
use autoforge.Sandbox.Runtime.{
  call, RuntimePorts, RuntimeOptions, Text, Fault, Runtime, read_sandbox, RuntimeSandbox, Served,
  get, Result, save_sandbox, patch_sandbox, truthy, destroying_status, tell, destroying_event,
  destroyed_status, destroyed_event, deregister,
}
use autoforge.Sandbox.Runtime.Service.{
  destroy, is_reclaimed, in_scope, found_in_scope, get_sandbox, destroy_live, cleanup,
}
use autoforge.Common.{
  ◌≡◌, true, some, ◌==◌, refl, Option, none, ◌∙◌, if◌then◌else◌, subst, inl, inr, Bool-cases,
}
use autoforge.Sandbox.Runtime.Provision.{Durations}
use autoforge.Common.Texts.{Text, text_eq}
use autoforge.Sandbox.{Fault, forbidden_fault, not_found_fault}
use autoforge.Common.Triple.{Triple, bind-Triple, Post, return-Triple, if-Triple}
use autoforge.Common.JsMap.{get, set, get-set_at}
use autoforge.Sandbox.Runtime.Calm.{OfTables, tell-Calm, cleanup-Calm}
use autoforge.Sandbox.Runtime.Quiet.{Quiet, call-Quiet}
use autoforge.Common.Result.{Result, ok, err}

module _ {W : Type 0} (ports : RuntimePorts W) (options : RuntimeOptions)
    (durations : Durations) where
  -- The row stands under its own id.
  unfoldable pub RowNamed : Text → Runtime W → Type 0
  RowNamed id m = (s : RuntimeSandbox) → get m.rows id ≡ some s → s.id ≡ id

  -- The row of the sandbox is this record, and it is reclaimed.
  unfoldable pub Reclaimed : Text → RuntimeSandbox → Runtime W → Type 0
  Reclaimed id s m = (get m.rows id ≡ some s) × (is_reclaimed s.status ≡ true)

  unfoldable HasRow : Text → RuntimeSandbox → Runtime W → Type 0
  HasRow id s m = (get m.rows id ≡ some s) × (s.id ≡ id)

  abbrev pub AnyEnd : Fault → Runtime W → Type 0
  AnyEnd error m = Unit {0}

  any-Post :
      {A : Type 0} (C : Runtime W → Type 0) (result : Result Fault A) (after : Runtime W)
      → C after
      → Post (λ _. C) AnyEnd (result, after)
  unfolding Post
  any-Post C (ok value) after c = c
  any-Post C (err thrown) after c = tt

  Quiet-Any :
      {A : Type 0} (C : Runtime W → Type 0) (step : Served W A)
      → OfTables C
      → Keeps Quiet step
      → Triple C step (λ _. C) AnyEnd
  Quiet-Any C step tables quiet = record {
    triple =
        λ m c. any-Post C (step m).0 (step m).1 (tables.transfer m (step m).1 (quiet.keeps m) c);
  }

  RowNamed-OfTables : (id : Text) → OfTables (RowNamed id)
  unfolding RowNamed
  RowNamed-OfTables id = record { transfer = λ m n quiet named. rw quiet.same_rows named }

  HasRow-OfTables : (id : Text) (s : RuntimeSandbox) → OfTables (HasRow id s)
  unfolding HasRow
  HasRow-OfTables id s = record { transfer = λ m n quiet row. rw quiet.same_rows row }

  Reclaimed-OfTables : (id : Text) (s : RuntimeSandbox) → OfTables (Reclaimed id s)
  unfolding Reclaimed
  Reclaimed-OfTables id s = record { transfer = λ m n quiet row. rw quiet.same_rows row }

  read-Row :
      (id : Text)
      → Triple
          (RowNamed id)
          (read_sandbox ports id)
          (λ found m. RowNamed id m × (get m.rows id ≡ found))
          AnyEnd
  unfolding read_sandbox Post
  read-Row id =
      bind-Triple (λ _. RowNamed id) (call (ports.read_row id)) _
        (Quiet-Any (RowNamed id) _ (RowNamed-OfTables id) (call-Quiet _))
        λ _. record { triple = λ m named. (named, refl) }

  throw-Any :
      {A : Type 0} {C : Runtime W → Type 0} (Q : A → Runtime W → Type 0) (error : Fault)
      → Triple C (throw error) Q AnyEnd
  unfolding Post
  throw-Any Q error = record { triple = λ m c. tt }

  -- The record that is found is the row, whoever asks for it.
  scoped-Row :
      (id : Text) (scan : Option Text) (s : RuntimeSandbox)
      → Triple
          (HasRow id s)
          (in_scope ports options durations id scan s)
          (λ found. HasRow id found)
          AnyEnd
  scoped-Row id none s = return-Triple (λ found. HasRow id found) s
  scoped-Row id (some scan) s =
      if-Triple (s.scan_id == scan) _ _ (return-Triple (λ found. HasRow id found) s)
        (throw-Any (λ found. HasRow id found) (forbidden_fault id scan))

  found-Row :
      (id : Text) (scan_id : Option Text) (found : Option RuntimeSandbox)
      → Triple
          (λ m. RowNamed id m × (get m.rows id ≡ found))
          (found_in_scope ports options durations id scan_id found)
          (λ s. HasRow id s)
          AnyEnd
  unfolding RowNamed HasRow
  found-Row id scan_id none = throw-Any (λ s. HasRow id s) (not_found_fault id)
  found-Row id scan_id (some s) = record {
    triple = λ m (named, e). (scoped-Row id (truthy scan_id) s).triple m (e, named s e);
  }

  get-Row :
      (id : Text) (scan_id : Option Text)
      → Triple
          (RowNamed id)
          (get_sandbox ports options durations id scan_id)
          (λ s. HasRow id s)
          AnyEnd
  unfolding get_sandbox
  get-Row id scan_id =
      bind-Triple (λ found m. RowNamed id m × (get m.rows id ≡ found)) (read_sandbox ports id) _
        (read-Row id) (found-Row id scan_id)

  patch-Row :
      {C : Runtime W → Type 0} (id : Text) (updated : RuntimeSandbox)
      (Q : RuntimeSandbox → Runtime W → Type 0)
      → ((m : Runtime W) (w : W)
          → C m
          → Q updated (record m { world = w; rows = set m.rows updated.id updated }))
      → Triple C (patch_sandbox ports updated) Q AnyEnd
  unfolding save_sandbox Post
  patch-Row {C = C} id updated Q given = record {
    triple = λ m c. go m c (ports.save_row updated m.world).0 (ports.save_row updated m.world).1;
  }
    where
      go :
          (m : Runtime W)
          → C m
          → (answer : Result Fault (Unit {0})) (w : W)
          → Post Q AnyEnd (
              continue_with
                (λ _. return updated)
                (continue_with
                  (λ _. modify (λ n. record n { rows = set n.rows updated.id updated }))
                  (answer, record m { world = w })))
      go m c (ok saved) w = given m w c
      go m c (err thrown) w = tt

  changed-Row :
      (id : Text) (s updated : RuntimeSandbox) (m : Runtime W) (w : W)
      → updated.id ≡ s.id
      → HasRow id s m
      → HasRow id updated (record m { world = w; rows = set m.rows updated.id updated })
  unfolding HasRow
  changed-Row id s updated m w same (row, named) =
      (get-set_at m.rows updated.id id updated (same ∙ named), same ∙ named)

  changed-Reclaimed :
      (id : Text) (s updated : RuntimeSandbox) (m : Runtime W) (w : W)
      → updated.id ≡ s.id
      → is_reclaimed updated.status ≡ true
      → HasRow id s m
      → Reclaimed id updated (record m { world = w; rows = set m.rows updated.id updated })
  unfolding HasRow Reclaimed
  changed-Reclaimed id s updated m w same over (row, named) =
      (get-set_at m.rows updated.id id updated (same ∙ named), over)

  clock-Triple : (C : Runtime W → Type 0) → Triple C (reads (λ m. ok m.clock)) (λ _. C) AnyEnd
  unfolding Post
  clock-Triple C = record { triple = λ m c. c }

  deregister-Reclaimed :
      (id : Text) (s : RuntimeSandbox)
      → Triple (Reclaimed id s) (deregister id) (λ _. Reclaimed id s) AnyEnd
  unfolding Reclaimed Post
  deregister-Reclaimed id s = record { triple = λ m row. row }

  destroy_live-Reclaimed :
      (id : Text) (s : RuntimeSandbox)
      → Triple (HasRow id s) (destroy_live ports options durations s id) (Reclaimed id) AnyEnd
  unfolding destroy_live
  destroy_live-Reclaimed id s =
      bind-Triple (λ v. HasRow id v) (patch_sandbox ports (record s { status = destroying_status }))
        _
        (patch-Row id (record s { status = destroying_status }) (λ v. HasRow id v)
          (λ m w row. changed-Row id s (record s { status = destroying_status }) m w refl row))
        λ destroying.
          bind-Triple (λ _. HasRow id destroying)
            (tell (ports.publish (destroying_event s.scan_id id s.sandbox_id))) _
            (tell-Calm _ (HasRow-OfTables id destroying))
            λ _.
              bind-Triple (λ _. HasRow id destroying) (cleanup ports options durations destroying) _
                (cleanup-Calm ports options durations destroying (HasRow-OfTables id destroying))
                λ _.
                  bind-Triple (λ _. HasRow id destroying) (reads (λ m. ok m.clock)) _
                    (clock-Triple (HasRow id destroying))
                    λ now.
                      bind-Triple (Reclaimed id)
                        (patch_sandbox ports (record destroying {
                          status = destroyed_status;
                          destroyed_at = some now;
                        }))
                        _
                        (patch-Row id
                          (record destroying { status = destroyed_status; destroyed_at = some now })
                          (Reclaimed id)
                          (λ m w row.
                            changed-Reclaimed id destroying
                              (record destroying {
                                status = destroyed_status;
                                destroyed_at = some now;
                              })
                              m w refl refl row))
                        λ gone.
                          bind-Triple (λ _. Reclaimed id gone)
                            (tell (ports.publish (destroyed_event s.scan_id id s.sandbox_id))) _
                            (tell-Calm _ (Reclaimed-OfTables id gone))
                            λ _.
                              bind-Triple (λ _. Reclaimed id gone) (deregister id) _
                                (deregister-Reclaimed id gone)
                                λ _. return-Triple (Reclaimed id) gone

  ended-Reclaimed :
      (id : Text) (s : RuntimeSandbox)
      → Triple
          (HasRow id s)
          (if is_reclaimed s.status then return s else destroy_live ports options durations s id)
          (Reclaimed id)
          AnyEnd
  unfolding HasRow Reclaimed Post
  ended-Reclaimed id s = record {
    triple = λ m row. elim (Bool-cases (is_reclaimed s.status)) [
      | inl over ↦ rw over (row.0, over)
      | inr live ↦ rw live ((destroy_live-Reclaimed id s).triple m row)
    ];
  }

  -- A call of destroy that returns leaves a record that is DESTROYED or EXPIRED, the one that it
  -- returns, as the row of the sandbox, if the row that it found stood under its own id; this is so
  -- whatever the cleanup of the container, the image and the workspace comes to.
  pub destroy-Reclaimed :
      (id : Text) (scan_id : Option Text) (m : Runtime W)
      → ((s : RuntimeSandbox) → get m.rows id ≡ some s → s.id ≡ id)
      → Post (Reclaimed id) AnyEnd (destroy ports options durations id scan_id m)
  unfolding destroy RowNamed
  destroy-Reclaimed id scan_id m named =
      (bind-Triple (λ s. HasRow id s) (get_sandbox ports options durations id scan_id) _
          (get-Row id scan_id) (ended-Reclaimed id)).triple
        m named

  again :
      (id : Text) (after : Runtime W) (s : RuntimeSandbox)
      → Post (Reclaimed id) AnyEnd (ok s, after)
      → (ports.read_row id after.world).0 ≡ ok tt
      → destroy ports options durations id none after
        ≡ (ok s, record after { world = (ports.read_row id after.world).1 })
  unfolding destroy get_sandbox read_sandbox Post Reclaimed
  again id after s (row, over) read = rw (read, row, over) refl

  -- When a call of destroy that names no scan has returned a record, a second call that names no scan
  -- returns that record, and of the state it leaves all as it was but for the query that reads the
  -- row, if the row read first is named by its own id and the second query goes through.
  pub destroy-again :
      (id : Text) (m after : Runtime W) (s : RuntimeSandbox)
      → ((r : RuntimeSandbox) → get m.rows id ≡ some r → r.id ≡ id)
      → destroy ports options durations id none m ≡ (ok s, after)
      → (ports.read_row id after.world).0 ≡ ok tt
      → destroy ports options durations id none after
        ≡ (ok s, record after { world = (ports.read_row id after.world).1 })
  destroy-again id m after s named e read =
      again id after s (subst (Post (Reclaimed id) AnyEnd) e (destroy-Reclaimed id none m named))
        read
