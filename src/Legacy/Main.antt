-- ===== src/Legacy/Main.antt =====
-- platform/raspberry-pi/worker_main.c: the worker's main function, up to the firmware's.
use virtual_trezor.Prelude.{
  ℕ, ◌≡◌, refl, Bool, true, false, ◌||◌, Option, none, some, is_some_lem, List, [], ◌∷◌, length,
  drop, ltb, ◌==◌, ◌!=◌, arith, Bool-cases, inl, inr, if◌then◌else◌,
}
use virtual_trezor.Prelude.Text.{Text}
use virtual_trezor.Bytes.{be16}
use virtual_trezor.Exec.{Returns, Returns->>=, Returns-all, done, ◌>>=◌, ◌>>◌, pure, die}
use virtual_trezor.Config.{WorkerConfig, ConfigError, worker_config_parse}
use virtual_trezor.Protocol.{Answer, failed, number, buffer, WorkerRecord, kind_initial_resources}
use virtual_trezor.Legacy.State.{
  World, Worker, call, expected_initial_resources, resource_counts_differ,
}
use virtual_trezor.Legacy.Records.{receive_record, close_record_fds}
use virtual_trezor.Legacy.Startup.{
  set_is_complete, assign_resources, require_complete, worker_receive_supervisor_resources,
}

-- What atexit returned.
abbrev registered : Worker ℕ → Answer → Worker ℕ
registered firmware_main (failed errno) = pure 1
registered firmware_main (number n) = worker_receive_supervisor_resources >> firmware_main
registered firmware_main (buffer bytes) = worker_receive_supervisor_resources >> firmware_main

abbrev parsed : Worker ℕ → WorkerConfig × Option ConfigError → Worker ℕ
parsed firmware_main (c, some error) w = done 2 (record w { config = c })
parsed firmware_main (c, none) w = (call >>= registered firmware_main) (record w { config = c })

-- `firmware_main` is trezorFirmwareMain; the result is the exit status.
unfoldable pub worker_main : List Text → Worker ℕ → Worker ℕ
worker_main arguments firmware_main = parsed firmware_main (worker_config_parse arguments)

-- The resources of the Trezor One's worker: the display's bus and its control lines, and the lines of
-- the buttons.
pub record HasResources (w : World) : Type 0 where
  pub display_bus : (fd : ℕ) × (w.usb.display_resource_fd ≡ some fd)
  pub display_control : (fd : ℕ) × (w.usb.display_control_fd ≡ some fd)
  pub button_lines : (fd : ℕ) × (w.usb.button_lines_fd ≡ some fd)

set_is_complete-HasResources : (w : World) → set_is_complete w.usb ≡ true → HasResources w
unfolding set_is_complete
set_is_complete-HasResources w h = record {
  display_bus = is_some_lem w.usb.display_resource_fd (ground arith);
  display_control = is_some_lem w.usb.display_control_fd (ground arith);
  button_lines = is_some_lem w.usb.button_lines_fd (ground arith);
}

require_complete_lem :
    (rest : List ℕ) (w : World) → Returns (require_complete rest w) λ _ v. HasResources v
unfolding require_complete
require_complete_lem rest w = elim (Bool-cases (length rest == 0)) [
  | inr more ↦ rw more tt
  | inl all ↦ elim (Bool-cases (set_is_complete w.usb)) [
    | inr missing ↦ rw (all, missing) tt
    | inl complete ↦ rw (all, complete) (set_is_complete-HasResources w complete)
  ]
]

worker_receive_supervisor_resources_lem :
    (w : World) → Returns (worker_receive_supervisor_resources w) λ _ v. HasResources v
unfolding worker_receive_supervisor_resources
worker_receive_supervisor_resources_lem w =
    Returns->>= (receive_record false) _ (λ _ _. Unit {0}) (λ _ v. HasResources v) w
      (Returns-all (receive_record false w))
      λ r v _.
        by_tests r v
          (r.kind != kind_initial_resources
            || r.generation != 0
            || r.request_id != 0
            || ltb (length r.body) 2)
          (be16 r.body 0 != length r.fds)
  where
    by_tests :
        (r : WorkerRecord) (v : World) (wrong differ : Bool)
        → Returns
            ((if wrong
                then (close_record_fds r >> die expected_initial_resources)
                else if differ
                then (close_record_fds r >> die resource_counts_differ)
                else (assign_resources (drop 2 r.body) r.fds >>= require_complete))
              v)
            λ _ x. HasResources x
    by_tests r v true differ =
        Returns->>= (close_record_fds r) _ (λ _ _. Unit {0}) _ v
          (Returns-all (close_record_fds r v)) (λ _ _ _. tt)
    by_tests r v false true =
        Returns->>= (close_record_fds r) _ (λ _ _. Unit {0}) _ v
          (Returns-all (close_record_fds r v)) (λ _ _ _. tt)
    by_tests r v false false =
        Returns->>= (assign_resources (drop 2 r.body) r.fds) require_complete (λ _ _. Unit {0})
          (λ _ x. HasResources x) v (Returns-all (assign_resources (drop 2 r.body) r.fds v))
          (λ rest x _. require_complete_lem rest x)

started :
    (answers : List Answer) (firmware_main : Worker ℕ) (w : World) (Q : ℕ → World → Type 0)
    → ((v : World) → HasResources v → Returns (firmware_main v) Q)
    → ((v : World) → Q 1 v)
    → Returns ((call >>= registered firmware_main) (record w { answers = answers })) Q
unfolding call
started [] firmware_main w Q run one = tt
started (failed e ∷ rest) firmware_main w Q run one = one (record w { answers = rest })
started (number n ∷ rest) firmware_main w Q run one =
    let v : World = record w { answers = rest } in
    Returns->>= worker_receive_supervisor_resources (λ _. firmware_main) _ Q v
      (worker_receive_supervisor_resources_lem v) (λ _ x h. run x h)
started (buffer b ∷ rest) firmware_main w Q run one =
    let v : World = record w { answers = rest } in
    Returns->>= worker_receive_supervisor_resources (λ _. firmware_main) _ Q v
      (worker_receive_supervisor_resources_lem v) (λ _ x h. run x h)

-- The firmware is started only with an accepted command line and with the descriptors of the display's
-- bus, of its control lines and of the buttons' lines: what it guarantees from such states holds whenever main returns, if it
-- holds of the exit statuses 1 and 2, with which main returns otherwise.
pub worker_main_complete :
    (arguments : List Text) (firmware_main : Worker ℕ) (w : World) (Q : ℕ → World → Type 0)
    → ((v : World)
        → HasResources v
        → (worker_config_parse arguments).1 ≡ none
        → Returns (firmware_main v) Q)
    → ((v : World) → Q 1 v)
    → ((v : World) → Q 2 v)
    → Returns (worker_main arguments firmware_main w) Q
unfolding worker_main
worker_main_complete arguments firmware_main w Q run one two =
    by_result (worker_config_parse arguments) run
  where
    by_result :
        (r : WorkerConfig × Option ConfigError)
        → ((v : World) → HasResources v → r.1 ≡ none → Returns (firmware_main v) Q)
        → Returns (parsed firmware_main r w) Q
    by_result (c, none) runs =
        started w.answers firmware_main (record w { config = c }) Q (λ v h. runs v h refl) one
    by_result (c, some error) runs = two (record w { config = c })
