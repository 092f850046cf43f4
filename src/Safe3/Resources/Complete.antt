-- ===== src/Safe3/Resources/Complete.antt =====
-- The start of the worker in platform/safe3/usb_supervisor.c: receive_initial_resources.
use virtual_trezor.Prelude.{
  ℕ, ◌≡◌, refl, subst, sym, true, false, Bool, not, ◌&&◌, ◌≢◌, Option, none, some, is_some_lem,
  List, [], ◌∷◌, length, drop, ◌==◌, Bool-cases, inl, inr, arith, if◌then◌else◌,
}
use virtual_trezor.Prelude.Text.{Text}
use virtual_trezor.Exec.{Returns, Returns->>=, Returns-all, Returns_imp, ◌>>=◌, ◌>>◌, die, done}
use virtual_trezor.Safe3.State.{
  World, Worker, Fault, WorkerRecord, call_or_die, button_nonblocking, reconnect_nonblocking,
  read_reconnect_level, expected_initial_resources, resource_counts_differ, running_as_root,
  invalid_state_directory, set_profile_directory, enter_state_directory,
}
use virtual_trezor.Safe3.Records.{receive_record, close_record_fds}
use virtual_trezor.Safe3.Service.{level_is_high}
use virtual_trezor.Safe3.Endpoints.Closing.{SameBut, call_or_die-SameBut}
use virtual_trezor.Safe3.Resources.{
  is_absolute, set_is_complete, make_nonblocking, prepare_lines, assign_resources,
  receive_resources, receive_initial_resources,
}

-- The four resources are there: the display's bus and its control lines, the lines of the buttons and
-- that of the reconnect button.
abbrev pub IsComplete : World → Type 0
IsComplete w =
    ((fd : ℕ) × (w.display_bus_fd ≡ some fd))
    × ((fd : ℕ) × (w.display_control_fd ≡ some fd))
    × ((fd : ℕ) × (w.button_lines_fd ≡ some fd))
    × ((fd : ℕ) × (w.reconnect_button_fd ≡ some fd))

set_is_complete-IsComplete : (w : World) → set_is_complete w ≡ true → IsComplete w
unfolding set_is_complete
set_is_complete-IsComplete w h = (
  is_some_lem w.display_bus_fd (ground arith),
  is_some_lem w.display_control_fd (ground arith),
  is_some_lem w.button_lines_fd (ground arith),
  is_some_lem w.reconnect_button_fd (ground arith),
)

-- An absolute path.
is_absolute_lem :
    (o : Option Text) → is_absolute o ≡ true → (rest : Text) × (o ≡ some (b'/' ∷ rest))
is_absolute_lem none h = absurd (cc)
is_absolute_lem (some []) h = absurd (cc)
is_absolute_lem (some (c ∷ rest)) h = (rest, ground arith)

IsComplete-then {κ} :
    {B : Type κ} (e : Fault) (f : ℕ → Worker B) (w : World)
    → IsComplete w
    → ((n : ℕ) (v : World) → IsComplete v → Returns (f n v) λ _ x. IsComplete x)
    → Returns ((call_or_die e >>= f) w) λ _ x. IsComplete x
IsComplete-then e f w h k =
    Returns->>= (call_or_die e) f (λ _ v. SameBut w v) _ w (call_or_die-SameBut e w)
      λ n v (rest, p). k n v (subst IsComplete (sym p) h)

pressed-IsComplete :
    (bits : ℕ) (w : World)
    → IsComplete w
    → IsComplete (record w { reconnect_pressed = level_is_high bits })
pressed-IsComplete bits w h = h

prepare_lines-IsComplete :
    (rest : List ℕ) (w : World) → Returns (prepare_lines rest w) λ _ v. IsComplete v
unfolding prepare_lines make_nonblocking
prepare_lines-IsComplete rest w = elim (Bool-cases (length rest == 0 && set_is_complete w)) [
  | inr partial ↦ rw partial tt
  | inl full ↦ rw full (
      Returns->>=
        (call_or_die button_nonblocking >>= λ _. call_or_die button_nonblocking >>= λ _. done tt) _
        (λ _ v. IsComplete v) _ w
        (IsComplete-then button_nonblocking _ w (set_is_complete-IsComplete w (ground arith))
          λ _ v h. IsComplete-then button_nonblocking _ v h λ _ x k. k)
        λ _ v h.
          Returns->>=
            (call_or_die reconnect_nonblocking >>= λ _.
              call_or_die reconnect_nonblocking >>= λ _. done tt)
            _ (λ _ x. IsComplete x) _ v
            (IsComplete-then reconnect_nonblocking _ v h
              λ _ x k. IsComplete-then reconnect_nonblocking _ x k λ _ y l. l)
            λ _ x k.
              IsComplete-then read_reconnect_level _ x k λ bits y l. pressed-IsComplete bits y l)
]

ended_record-IsComplete :
    (r : WorkerRecord) (e : Fault) (w : World)
    → Returns ((close_record_fds r >>= λ _. die {A = Unit {0}} e) w) λ _ v. IsComplete v
ended_record-IsComplete r e w =
    Returns->>= (close_record_fds r) (λ _. die e) (λ _ _. Unit {0}) (λ _ v. IsComplete v) w
      (Returns-all (close_record_fds r w)) λ _ _ _. tt

accepted-IsComplete :
    (r : WorkerRecord) (kind_differs counts_differ : Bool) (w : World)
    → Returns
        ((if kind_differs
            then (close_record_fds r >> die expected_initial_resources)
            else if counts_differ
            then (close_record_fds r >> die resource_counts_differ)
            else (assign_resources (drop 2 r.body) r.fds >>= prepare_lines))
          w)
        λ _ v. IsComplete v
accepted-IsComplete r true counts_differ w = ended_record-IsComplete r expected_initial_resources w
accepted-IsComplete r false true w = ended_record-IsComplete r resource_counts_differ w
accepted-IsComplete r false false w =
    Returns->>= (assign_resources (drop 2 r.body) r.fds) prepare_lines (λ _ _. Unit {0})
      (λ _ v. IsComplete v) w (Returns-all (assign_resources (drop 2 r.body) r.fds w))
      λ rest v _. prepare_lines-IsComplete rest v

receive_resources-IsComplete : (w : World) → Returns (receive_resources w) λ _ v. IsComplete v
unfolding receive_resources
receive_resources-IsComplete w =
    Returns->>= (receive_record false) _ (λ _ _. Unit {0}) (λ _ v. IsComplete v) w
      (Returns-all (receive_record false w)) λ r v _. accepted-IsComplete r _ _ v

started-IsComplete :
    (root absolute : Bool) (w : World)
    → Returns
        ((if root
            then die running_as_root
            else if not absolute
            then die invalid_state_directory
            else (call_or_die set_profile_directory >>= λ _.
                call_or_die enter_state_directory >>= λ _. receive_resources))
          w)
        λ _ v. (root ≡ false) × (absolute ≡ true) × IsComplete v
started-IsComplete true absolute w = tt
started-IsComplete false false w = tt
started-IsComplete false true w =
    Returns->>= (call_or_die set_profile_directory) _ (λ _ _. Unit {0}) _ w
      (Returns-all (call_or_die set_profile_directory w))
      λ _ v _.
        Returns->>= (call_or_die enter_state_directory) _ (λ _ _. Unit {0}) _ v
          (Returns-all (call_or_die enter_state_directory v))
          λ _ x _.
            Returns_imp (λ _ y. IsComplete y) _ (receive_resources x) (λ _ _ h. (refl, refl, h))
              (receive_resources-IsComplete x)

-- A worker whose start returns does not run as root, has an absolute path as its state directory, and
-- has every resource: a display bus, the display's control lines, the button lines and the reconnect
-- button.
pub receive_initial_resources-IsComplete :
    (euid : ℕ) (state_directory : Option Text) (w : World)
    → Returns
        (receive_initial_resources euid state_directory w)
        λ _ v. (euid ≢ 0) × ((rest : Text) × (state_directory ≡ some (b'/' ∷ rest))) × IsComplete v
unfolding receive_initial_resources
receive_initial_resources-IsComplete euid state_directory w =
    Returns_imp (λ _ v. (_ ≡ false) × (_ ≡ true) × IsComplete v) _
      (receive_initial_resources euid state_directory w)
      (λ _ v (user, absolute, full).
        (λ root. ground arith, is_absolute_lem state_directory absolute, full))
      (started-IsComplete (euid == 0) (is_absolute state_directory) w)
