-- ===== src/Devices/Balance.antt =====
-- How many descriptors platform/safe3/display_resources.c holds: those that it opened or was granted,
-- less those that it closed.
use virtual_trezor.Prelude.{
  ℕ, suc, ◌+◌, ◌≡◌, refl, ◌∙◌, Bool, true, false, Option, none, some, is_some, List, [], ◌∷◌, inl,
  inr, ◌⊎◌, arith, if◌then◌else◌, ◌||◌, not,
}
use virtual_trezor.Prelude.Text.{Text, codes}
use virtual_trezor.Exec.{Returns, Returns->>=, ◌>>=◌}
use virtual_trezor.Protocol.{Answer, failed, number, buffer}
use virtual_trezor.Devices.State.{
  World, Driver, Build, Event, opened, requested, closed, started_gfx, stopped_gfx, LineRequest,
  DisplayResources, call, descriptor_of,
}
use virtual_trezor.Devices.Resources.{
  inherit, request_lines, display_lines, path_or, parse_fd, with_lines, open_bus,
  safe3_display_resources_acquire, safe3_display_resources_release,
}

abbrev pub one : Bool → ℕ
one true = 1
one false = 0

unfoldable pub acquired : List Event → ℕ
acquired [] = 0
acquired (opened path fd ∷ log) = suc (acquired log)
acquired (requested request fd ∷ log) = suc (acquired log)
acquired (_ ∷ log) = acquired log

unfoldable pub released : List Event → ℕ
released [] = 0
released (closed fd ∷ log) = suc (released log)
released (_ ∷ log) = released log

unfoldable pub started : List Event → ℕ
started [] = 0
started (started_gfx ∷ log) = suc (started log)
started (_ ∷ log) = started log

unfoldable pub stopped : List Event → ℕ
stopped [] = 0
stopped (stopped_gfx ∷ log) = suc (stopped log)
stopped (_ ∷ log) = stopped log

-- The drivers are as before and so is the bit blitter, and `gained` more descriptors are held, and
-- `lost` fewer.
abbrev pub Moves : (gained lost : ℕ) → World → World → Type 0
Moves gained lost w w' =
    (w'.display ≡ w.display)
    × (w'.buttons ≡ w.buttons)
    × (acquired w'.log + released w.log + lost ≡ acquired w.log + released w'.log + gained)
    × (started w'.log ≡ started w.log)
    × (stopped w'.log ≡ stopped w.log)

request_lines-answered :
    (path : Text) (request : LineRequest) (answers : List Answer) (w : World)
    → Returns
        (request_lines path request (record w { answers = answers }))
        λ o w'. Moves (one (is_some o)) 0 w w'
unfolding request_lines call acquired released started stopped
request_lines-answered path request [] w = tt
request_lines-answered path request (failed e ∷ rest) w = (refl, refl, omega arith, refl, refl)
request_lines-answered path request (buffer b ∷ rest) w = (refl, refl, omega arith, refl, refl)
request_lines-answered path request (number n ∷ []) w = tt
request_lines-answered path request (number n ∷ failed e ∷ rest) w =
    (refl, refl, omega arith, refl, refl)
request_lines-answered path request (number n ∷ buffer b ∷ rest) w =
    (refl, refl, omega arith, refl, refl)
request_lines-answered path request (number n ∷ number m ∷ rest) w =
    (refl, refl, omega arith, refl, refl)

-- How many descriptors the resources own.
abbrev owned_one : Bool → Option ℕ → ℕ
owned_one true (some fd) = 1
owned_one true none = 0
owned_one false fd = 0

abbrev pub owned : DisplayResources → ℕ
owned r = owned_one r.owns_bus_fd r.bus_fd + owned_one r.owns_control_fd r.control_fd

release-Moves :
    (bus control : Option ℕ) (owns_bus owns_control : Bool) (w : World)
    → let r : DisplayResources = record {
      bus_fd = bus;
      control_fd = control;
      owns_bus_fd = owns_bus;
      owns_control_fd = owns_control;
    } in
      Returns (safe3_display_resources_release r w) λ r' w'. Moves 0 (owned r) w w'
unfolding safe3_display_resources_release acquired released started stopped
release-Moves (some a) (some c) true true w = (refl, refl, omega arith, refl, refl)
release-Moves (some a) (some c) true false w = (refl, refl, omega arith, refl, refl)
release-Moves (some a) (some c) false true w = (refl, refl, omega arith, refl, refl)
release-Moves (some a) none true true w = (refl, refl, omega arith, refl, refl)
release-Moves (some a) none true false w = (refl, refl, omega arith, refl, refl)
release-Moves (some a) none false true w = (refl, refl, omega arith, refl, refl)
release-Moves none (some c) true true w = (refl, refl, omega arith, refl, refl)
release-Moves none (some c) true false w = (refl, refl, omega arith, refl, refl)
release-Moves none (some c) false true w = (refl, refl, omega arith, refl, refl)
release-Moves none none true true w = (refl, refl, omega arith, refl, refl)
release-Moves none none true false w = (refl, refl, omega arith, refl, refl)
release-Moves none none false true w = (refl, refl, omega arith, refl, refl)
release-Moves bus control false false w = (refl, refl, omega arith, refl, refl)

-- What the resources own is released with them.
pub safe3_display_resources_release-Moves :
    (r : DisplayResources) (w : World)
    → Returns (safe3_display_resources_release r w) λ r' w'. Moves 0 (owned r) w w'
safe3_display_resources_release-Moves r w =
    release-Moves r.bus_fd r.control_fd r.owns_bus_fd r.owns_control_fd w

-- What was acquired is owned, and nothing is where it failed.
abbrev pub Acquires : World → Bool × DisplayResources → World → Type 0
Acquires w (ok, r) w' = Moves (owned r) 0 w w' × ((ok ≡ true) ⊎ (owned r ≡ 0))

Returns-if {ℓ} :
    {A : Type ℓ} (b : Bool) (m n : Driver A) (w : World) (P : A → World → Type 0)
    → Returns (m w) P
    → Returns (n w) P
    → Returns ((if b then m else n) w) P
Returns-if true m n w P h k = h
Returns-if false m n w P h k = k

with_lines-Acquires :
    (bus : ℕ) (o : Option ℕ) (w v : World)
    → Moves (1 + one (is_some o)) 0 w v
    → Returns (with_lines bus o v) (Acquires w)
unfolding safe3_display_resources_release acquired released started stopped
with_lines-Acquires bus (some control) w v h = (h, inl refl)
with_lines-Acquires bus none w v (a, b, c, d, e) = ((a, b, omega arith, d, e), inr (omega arith))

open_bus-Acquires :
    (bus_path gpio_path : Text) (o : Option ℕ) (w v : World)
    → Moves 0 0 w v
    → Returns (open_bus bus_path gpio_path o v) (Acquires w)
unfolding acquired released started stopped
open_bus-Acquires bus_path gpio_path none w v h = (h, inr (omega arith))
open_bus-Acquires bus_path gpio_path (some bus) w v (a, b, c, d, e) =
    let x : World = record v { log = opened bus_path bus ∷ v.log } in
    Returns->>= (request_lines gpio_path display_lines) (with_lines bus)
      (λ o y. Moves (one (is_some o)) 0 x y) (Acquires w) x
      (request_lines-answered gpio_path display_lines x.answers x)
      λ o y (f, g, h, i, j). with_lines-Acquires bus o w y (f ∙ a, g ∙ b, omega arith, i ∙ d, j ∙ e)

acquire-opened :
    (bus_path gpio_path : Text) (answers : List Answer) (w : World)
    → Returns
        ((call >>= λ a. open_bus bus_path gpio_path (descriptor_of a))
          (record w { answers = answers }))
        (Acquires w)
unfolding call
acquire-opened bus_path gpio_path [] w = tt
acquire-opened bus_path gpio_path (a ∷ rest) w =
    open_bus-Acquires bus_path gpio_path (descriptor_of a) w (record w { answers = rest })
      (refl, refl, omega arith, refl, refl)

-- Whatever way the descriptors come, what was acquired on it is owned by the resources, and nothing
-- is where it fails.
pub safe3_display_resources_acquire-Acquires :
    (b : Build) (w : World) → Returns (safe3_display_resources_acquire b w) (Acquires w)
unfolding safe3_display_resources_acquire
safe3_display_resources_acquire-Acquires b w =
    Returns-if b.supervisor_usb _ _ w (Acquires w)
      ((refl, refl, omega arith, refl, refl), inr (omega arith))
      (Returns-if (is_some w.environment.display_bus_fd || is_some w.environment.display_control_fd)
        _ _ w (Acquires w)
        (inherited (parse_fd b w.environment.display_bus_fd)
          (parse_fd b w.environment.display_control_fd))
        (Returns-if (not b.linux) _ _ w (Acquires w)
          ((refl, refl, omega arith, refl, refl), inr (omega arith))
          (acquire-opened (path_or (codes "/dev/spidev0.0") w.environment.display_bus)
            (path_or (codes "/dev/gpiochip0") w.environment.display_gpio) w.answers w)))
  where
    inherited : (bus control : Option ℕ) → Acquires w (inherit bus control) w
    inherited none control = ((refl, refl, omega arith, refl, refl), inr (omega arith))
    inherited (some bus) none = ((refl, refl, omega arith, refl, refl), inr (omega arith))
    inherited (some bus) (some control) = ((refl, refl, omega arith, refl, refl), inr (omega arith))
