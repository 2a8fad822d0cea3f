-- ===== src/ModelControl/Running.antt =====
-- deploy/compute-host/modelctl_server.py: what the controller finds running, and what `start` does to it.
use novo_chat.Base.{
  ℕ, zero, suc, String, ◌≡◌, ◌≢◌, refl, sym, ap, ◌∙◌, Bool, true, false, inl, inr, Bool-cases, List,
  [], ◌∷◌, ◌==◌, ◌!=◌, nat_eq, string_eq, eq_iff, arith, any, contains, if◌then◌else◌,
}
use novo_chat.Base.Result.{Result, ok, err, ok-injective, err-ne-ok, Result-cases}
use novo_chat.ModelControl.{
  ControllerError, Outcome, completed, timed_out, unavailable, arguments, inspect_running,
  start_container, Host,
}
use novo_chat.ModelControl.Config.{ModelConfig}
use novo_chat.ModelControl.Controller.{
  changed_to, start_failed, Answer, with_result, is_running, running_containers,
  container_unavailable, start_alone,
}

module _ (host : Host) where
  open host use {World, run, is_up, strip_lower}

  -- Of the containers of the inventory, at most one runs.
  abbrev pub Exclusive : List String → World → Type 0
  Exclusive containers w =
      (c d : String)
      → contains containers c ≡ true
      → contains containers d ≡ true
      → is_up w c ≡ true
      → is_up w d ≡ true
      → c ≡ d

  abbrev pub SameUp : World → World → Type 0
  SameUp w w' = (d : String) → is_up w' d ≡ is_up w d

  pub with_result-world :
      {A : Type 0} (o : Outcome × World) (k : ℕ → String → String → World → Answer host A)
      → ((n : ℕ) (out error : String) (w : World) → (k n out error w).1 ≡ w)
      → (with_result host o k).1 ≡ o.1
  with_result-world (completed n out error, w) k h = h n out error w
  with_result-world (timed_out, w) k h = refl
  with_result-world (unavailable, w) k h = refl

  pub if-world :
      {A : Type 0} (b : Bool) (a a' : Result ControllerError A) {w : World}
      → (if◌then◌else◌ {A = Answer host A} b (a, w) (a', w)).1 ≡ w
  if-world true a a' = refl
  if-world false a a' = refl

  is_running-world :
      (c : String) (w : World)
      → (is_running host c w).1 ≡ (run (arguments (inspect_running c)) 15 w).1
  unfolding is_running
  is_running-world c w =
      with_result-world (run (arguments (inspect_running c)) 15 w) _
        (λ n out error w. if-world (n == 0) _ _)

  pub is_running-keeps : (c : String) (w : World) → SameUp w (is_running host c w).1
  is_running-keeps c w d = rw (is_running-world c w) (host.inspect_running_keeps c 15 w d)

  suc_ne_zero : (n : ℕ) → (suc n == 0) ≡ false
  suc_ne_zero n = ground arith

  pub is_running-tells :
      (c : String) (w : World) {b : Bool} → (is_running host c w).0 ≡ ok b → is_up w c ≡ b
  unfolding is_running
  is_running-tells c w {b} h = tells _ refl h
    where
      tells :
          (o : Outcome × World)
          → run (arguments (inspect_running c)) 15 w ≡ o
          → (with_result host o (λ n out error w'.
              if n == 0
              then (ok (strip_lower out == "true"), w')
              else (err container_unavailable, w'))).0
            ≡ ok b
          → is_up w c ≡ b
      tells (completed zero out error, w1) e k =
          let law = host.inspect_running_tells c 15 w (ap (λ p. p.0) e) in
          let yes = law.0 in
          let no = law.1 in
          let answer = ok-injective k in ground (arith, eq_iff (strip_lower out) "true", yes, no)
      tells (completed (suc n) out error, w1) e k = absurd (err-ne-ok (rw (suc_ne_zero n) at k))
      tells (timed_out, w1) e k = cc
      tells (unavailable, w1) e k = cc

  pub running_containers-keeps :
      (cs : List String) (w : World) → SameUp w (running_containers host cs w).1
  unfolding running_containers
  running_containers-keeps [] w d = refl
  running_containers-keeps (c ∷ cs) w d = elim (Result-cases (is_running host c w).0) [
    | inl (b, e) ↦
        rw (running_containers, e)
          (running_containers-keeps cs (is_running host c w).1 d ∙ is_running-keeps c w d)
    | inr (_, e) ↦ rw (running_containers, e) (is_running-keeps c w d)
  ]

  contains_up :
      {w : World} (c d : String) (cs names : List String) (b : Bool)
      → contains (c ∷ cs) d ≡ true
      → (is_up w c ≡ b) × (is_up w d ≡ true)
      → (contains cs d ≡ true → contains names d ≡ true)
      → contains (if b then c ∷ names else names) d ≡ true
  contains_up {w} c d cs names b listed up later = elim (Bool-cases (d == c)) [
    | inl e ↦
        let same : d ≡ c = (eq_iff d c).0 e in let yes = rw (same, up.0) at up.1 in rw (yes, e) refl
    | inr e ↦ ground (arith, later)
  ]

  pub running_containers-finds :
      (cs : List String) (w : World) {names : List String}
      → (running_containers host cs w).0 ≡ ok names
      → (d : String) → contains cs d ≡ true
      → is_up w d ≡ true
      → contains names d ≡ true
  unfolding running_containers
  running_containers-finds [] w h d listed up = cc
  running_containers-finds (c ∷ cs) w h d listed up = elim (Result-cases (is_running host c w).0) [
    | inl (b, e) ↦ elim (Result-cases (running_containers host cs (is_running host c w).1).0) [
      | inl (rest, f) ↦
          let found = ok-injective (rw (running_containers, e, f) at h) in
          let this = is_running-tells c w e in
          let later = running_containers-finds cs (is_running host c w).1 f d in
          let kept = is_running-keeps c w d in
          rw (← found) (contains_up c d cs rest b listed (this, up) (λ l. later l (rw kept up)))
      | inr (_, f) ↦ absurd (err-ne-ok (rw (running_containers, e, f) at h))
    ]
    | inr (_, e) ↦ absurd (err-ne-ok (rw (running_containers, e) at h))
  ]

  start_others :
      (c : String) (w : World) (d : String)
      → d ≢ c
      → is_up (run (arguments (start_container c)) 60 w).1 d ≡ is_up w d
  start_others c w d h = host.start_others c 60 w d h

  start_container-Exclusive :
      (containers : List String) (c : String) (w : World)
      → ((d : String) → contains containers d ≡ true → is_up w d ≡ false)
      → Exclusive containers (run (arguments (start_container c)) 60 w).1
  start_container-Exclusive containers c w down a b in_a in_b up_a up_b =
      only a in_a up_a ∙ sym (only b in_b up_b)
    where
      only :
          (d : String)
          → contains containers d ≡ true
          → is_up (run (arguments (start_container c)) 60 w).1 d ≡ true
          → d ≡ c
      only d listed up = elim (Bool-cases (d == c)) [
        | inl e ↦ (eq_iff d c).0 e
        | inr e ↦
            let apart : d ≢ c = λ same. ground (arith, eq_iff d c) in
            let still = start_others c w d apart in ground (arith, down d)
      ]

  no_other :
      (names : List String) (c d : String)
      → any (λ x. x != c) names ≡ false
      → contains names d ≡ true
      → d ≡ c
  no_other [] c d h k = cc
  no_other (x ∷ names) c d h k = ground (arith, eq_iff d x, eq_iff x c, no_other names c d)

  start_world :
      (c : String) (w : World)
      → (with_result host (run (arguments (start_container c)) 60 w) (λ n out error w'.
          if n == 0 then (ok (changed_to true true), w') else (err start_failed, w'))).1
        ≡ (run (arguments (start_container c)) 60 w).1
  start_world c w =
      with_result-world (run (arguments (start_container c)) 60 w) _
        (λ n out error w. if-world (n == 0) _ _)

  -- What `start` does once it knows what runs.
  pub start_alone-Exclusive :
      (containers : List String) (config : ModelConfig) (names : List String) (w : World)
      → ((d : String) → contains containers d ≡ true → is_up w d ≡ true → contains names d ≡ true)
      → Exclusive containers w
      → Exclusive containers (start_alone host config names w).1
  unfolding start_alone
  start_alone-Exclusive containers config names w known h =
      elim (Bool-cases (any (λ x. x != config.container) names)) [
        | inl other ↦ rw other h
        | inr none_other ↦ elim (Bool-cases (contains names config.container)) [
          | inl up ↦ rw (none_other, up) h
          | inr down ↦
              let nothing_up : (d : String) → contains containers d ≡ true → is_up w d ≡ false =
                λ d listed. ground (arith, known d, no_other names config.container d) in
              rw (none_other, down, start_world config.container w)
                (start_container-Exclusive containers config.container w nothing_up)
        ]
      ]
