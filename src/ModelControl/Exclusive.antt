-- ===== src/ModelControl/Exclusive.antt =====
-- deploy/compute-host/modelctl_server.py: sequences of connections and the running containers.
use novo_chat.Base.{
  String, ◌≡◌, refl, sym, ◌∙◌, ◌+◌, Bool, true, false, not, ◌||◌, all, inl, inr, Bool-cases, some,
  List, [], ◌∷◌, ◌==◌, nat_eq, string_eq, contains, if◌then◌else◌,
}
use mathlib.Core.Path.{subst}
use novo_chat.Base.Result.{ok, err, ok-injective, err-ne-ok, Result-cases}
use novo_chat.ModelControl.{
  Outcome, completed, timed_out, unavailable, arguments, stop_container, inspect_started, Host,
}
use novo_chat.ModelControl.Config.{ModelConfig, InventoryFile, load_inventory}
use novo_chat.ModelControl.Controller.{
  stop_failed, changed_to, find_model, exclusive_containers, is_running, running_containers,
  startup_progress, started_log, start, stop_running, stop, status,
}
use novo_chat.ModelControl.Requests
use novo_chat.ModelControl.Requests.{
  Decoded, Request, Action, perform, handle_request, parse_request,
}
use novo_chat.ModelControl.Running.{
  Exclusive, SameUp, with_result-world, if-world, is_running-keeps, running_containers-keeps,
  running_containers-finds, start_alone-Exclusive,
}

module _ (host : Host) where
  open host use {World, run, is_up}

  -- Every running container ran before.
  abbrev FewerUp : World → World → Type 0
  FewerUp w w' = (d : String) → is_up w' d ≡ true → is_up w d ≡ true

  Exclusive-fewer :
      (containers : List String) (w w' : World)
      → FewerUp w w'
      → Exclusive host containers w
      → Exclusive host containers w'
  Exclusive-fewer containers w w' fewer h c d in_c in_d up_c up_d =
      h c d in_c in_d (fewer c up_c) (fewer d up_d)

  FewerUp-same : {w w' : World} → SameUp host w w' → FewerUp w w'
  FewerUp-same same d up = sym (same d) ∙ up

  exclusive_containers-loads :
      (configs : List ModelConfig) (file : InventoryFile) {containers found : List String}
      → load_inventory file ≡ ok containers
      → exclusive_containers configs (some file) ≡ ok found
      → found ≡ containers
  unfolding exclusive_containers
  exclusive_containers-loads configs file {containers} e h =
      elim (Bool-cases (all (λ config. contains containers config.container) configs)) [
        | inl listed ↦ sym (ok-injective (rw (exclusive_containers, e, listed) at h))
        | inr missing ↦ absurd (err-ne-ok (rw (exclusive_containers, e, missing) at h))
      ]

  Exclusive-list :
      {found containers : List String} {w : World}
      → found ≡ containers
      → Exclusive host found w
      → Exclusive host containers w
  Exclusive-list {w = w} same h = subst (λ cs. Exclusive host cs w) same h

  start-Exclusive :
      (containers : List String) (configs : List ModelConfig) (lockable : Bool)
      (file : InventoryFile) (model : String) (w : World)
      → load_inventory file ≡ ok containers
      → Exclusive host containers w
      → Exclusive host containers (start host configs lockable (some file) model w).1
  unfolding start
  start-Exclusive containers configs lockable file model w e h =
      elim (Result-cases (find_model configs model)) [
        | inr (_, f) ↦ rw (start, f) h
        | inl (config, f) ↦ elim (Bool-cases lockable) [
          | inr unlocked ↦ rw (start, f, unlocked) h
          | inl locks ↦ elim (Result-cases (exclusive_containers configs (some file))) [
            | inr (_, g) ↦ rw (start, f, locks, g) h
            | inl (found, g) ↦
                let same = exclusive_containers-loads configs file e g in
                let w1 = (running_containers host found w).1 in
                let keeps = running_containers-keeps host found w in
                let h' =
                  Exclusive-fewer found w w1 (FewerUp-same keeps) (Exclusive-list (sym same) h) in
                elim (Result-cases (running_containers host found w).0) [
                  | inr (_, k) ↦ rw (start, f, locks, g, k) (Exclusive-list same h')
                  | inl (names, k) ↦
                      rw (start, f, locks, g, k)
                        (Exclusive-list same (
                          start_alone-Exclusive host found config names w1
                            (λ d listed up.
                              running_containers-finds host found w k d listed (sym (keeps d) ∙ up))
                            h'))
                ]
          ]
        ]
      ]

  stop_running-fewer : (config : ModelConfig) (w : World) → FewerUp w (stop_running host config w).1
  unfolding stop_running
  stop_running-fewer config w d up = elim (Bool-cases (is_up w d)) [
    | inl before ↦ before
    | inr not_before ↦
        let world =
          with_result-world host
            (run (arguments (stop_container (host.show_nat config.stop_timeout) config.container))
              (config.stop_timeout + 15) w)
            (λ n out error w'.
              if n == 0 then (ok (changed_to false true), w') else (err stop_failed, w'))
            (λ n out error w. if-world host (n == 0) _ _) in
        let still =
          host.stop_others (host.show_nat config.stop_timeout) config.container
            (config.stop_timeout + 15) w d not_before in
        cc
  ]

  stop-fewer :
      (configs : List ModelConfig) (lockable : Bool) (model : String) (w : World)
      → FewerUp w (stop host configs lockable model w).1
  unfolding stop
  stop-fewer configs lockable model w d up = elim (Result-cases (find_model configs model)) [
    | inr (_, f) ↦ rw (stop, f) at up
    | inl (config, f) ↦ elim (Bool-cases lockable) [
      | inr unlocked ↦ rw (stop, f, unlocked) at up
      | inl locks ↦ elim (Result-cases (is_running host config.container w).0) [
        | inr (_, g) ↦
            sym (is_running-keeps host config.container w d) ∙ rw (stop, f, locks, g) at up
        | inl (b, g) ↦
            let w1 = (is_running host config.container w).1 in
            let before : is_up w1 d ≡ true = elim (Bool-cases b) [
              | inl on ↦ stop_running-fewer config w1 d (rw (stop, f, locks, g, on) at up)
              | inr off ↦ rw (stop, f, locks, g, off) at up
            ] in
            sym (is_running-keeps host config.container w d) ∙ before
      ]
    ]
  ]

  started_log-keeps :
      (c : String) (o : Outcome) (w : World) → SameUp host w (started_log host c o w).1
  started_log-keeps c (completed n out error) w d =
      elim (Bool-cases (not (n == 0) || not (host.is_started_at (host.strip out)))) [
        | inl b ↦ rw b refl
        | inr b ↦ rw b (host.logs_keeps (host.strip out) c 15 w d)
      ]
  started_log-keeps c timed_out w d = refl
  started_log-keeps c unavailable w d = refl

  startup_progress-keeps : (c : String) (w : World) → SameUp host w (startup_progress host c w).1
  unfolding startup_progress
  startup_progress-keeps c w d =
      started_log-keeps c (run (arguments (inspect_started c)) 15 w).0
        (run (arguments (inspect_started c)) 15 w).1 d
      ∙ host.inspect_started_keeps c 15 w d

  status-keeps :
      (configs : List ModelConfig) (model : String) (w : World)
      → SameUp host w (status host configs model w).1
  unfolding status
  status-keeps configs model w d = elim (Result-cases (find_model configs model)) [
    | inr (_, f) ↦ rw (status, f) refl
    | inl (config, f) ↦
        let w1 = (is_running host config.container w).1 in
        elim (Result-cases (is_running host config.container w).0) [
          | inr (_, g) ↦ rw (status, f, g) (is_running-keeps host config.container w d)
          | inl (b, g) ↦ elim (Bool-cases b) [
            | inl on ↦
                rw (status, f, g, on)
                  (startup_progress-keeps config.container w1 d
                    ∙ is_running-keeps host config.container w d)
            | inr off ↦ rw (status, f, g, off) (is_running-keeps host config.container w d)
          ]
        ]
  ]

  -- One connection: the models of the controller that serves it, whether it gets the lock, the bytes.
  pub record Connection : Type 0 where
    pub models : List ModelConfig
    pub lockable : Bool
    pub raw : Decoded

  -- Controllers that share one inventory file, each connection served as one step.
  unfoldable pub serve_all : InventoryFile → List Connection → World → World
  serve_all file [] w = w
  serve_all file (c ∷ cs) w =
      serve_all file cs (handle_request host c.models c.lockable (some file) c.raw w).2

  perform-Exclusive :
      (containers : List String) (configs : List ModelConfig) (lockable : Bool)
      (file : InventoryFile) (request : Request) (w : World)
      → load_inventory file ≡ ok containers
      → Exclusive host containers w
      → Exclusive host containers (perform host configs lockable (some file) request w).1
  unfolding perform
  perform-Exclusive containers configs lockable file request w e h = by_action request.action refl
    where
      by_action :
          (a : Action)
          → request.action ≡ a
          → Exclusive host containers (perform host configs lockable (some file) request w).1
      by_action Requests.start k =
          rw (perform, k) (start-Exclusive containers configs lockable file request.model w e h)
      by_action Requests.stop k =
          rw (perform, k)
            (Exclusive-fewer containers w _ (stop-fewer configs lockable request.model w) h)
      by_action Requests.status k =
          rw (perform, k)
            (Exclusive-fewer containers w _ (FewerUp-same (status-keeps configs request.model w)) h)

  handle_request-Exclusive :
      (containers : List String) (configs : List ModelConfig) (lockable : Bool)
      (file : InventoryFile) (raw : Decoded) (w : World)
      → load_inventory file ≡ ok containers
      → Exclusive host containers w
      → Exclusive host containers (handle_request host configs lockable (some file) raw w).2
  unfolding handle_request
  handle_request-Exclusive containers configs lockable file raw w e h =
      elim (Result-cases (parse_request raw)) [
        | inr (_, f) ↦ rw (handle_request, f) h
        | inl (request, f) ↦
            let after = perform-Exclusive containers configs lockable file request w e h in
            elim (Result-cases (perform host configs lockable (some file) request w).0) [
              | inr (_, g) ↦ rw (handle_request, f, g) after
              | inl (_, g) ↦ rw (handle_request, f, g) after
            ]
      ]

  -- Where at most one container of the inventory runs, the same holds after any connections, whatever
  -- they ask, whatever the models of the controllers that serve them, and whatever fails on the way.
  pub serve_all-Exclusive :
      (containers : List String) (file : InventoryFile) (cs : List Connection) (w : World)
      → load_inventory file ≡ ok containers
      → Exclusive host containers w
      → Exclusive host containers (serve_all file cs w)
  unfolding serve_all
  serve_all-Exclusive containers file [] w e h = h
  serve_all-Exclusive containers file (c ∷ cs) w e h =
      serve_all-Exclusive containers file cs
        (handle_request host c.models c.lockable (some file) c.raw w).2 e
        (handle_request-Exclusive containers c.models c.lockable file c.raw w e h)
