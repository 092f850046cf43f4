-- ===== src/Devices/Buttons/Levels.antt =====
-- The levels of the GPIO lines and the state of the buttons in platform/safe3/button_gpio.c.
use virtual_trezor.Prelude.{
  some, none, ℕ, zero, suc, ◌+◌, ◌*◌, ◌/◌, ◌%◌, ◌^◌, ◌≤◌, ◌≡◌, ◌≢◌, refl, ◌∙◌, ap, sym, Bool, true,
  false, ◌||◌, ◌&&◌, not, ◌!=◌, List, ◌∷◌, ltb, ◌==◌, arith, if◌then◌else◌,
}
use native.Mathlib.Nat.{div-div-eq-div-mul}
use virtual_trezor.Exec.{done, >>=-done, ◌>>=◌, ◌>>◌, pure}
use virtual_trezor.Protocol.{Answer, number}
use virtual_trezor.Legacy.Buttons.{bit, button_gpio_pressed}
use virtual_trezor.Devices.State.{World, Driver, Build, traced, emit, modify_buttons}
use virtual_trezor.Devices.Resources.{safe3_button_resources_read, read_lines_from}
use virtual_trezor.Devices.Buttons.{
  state_of, trace_state, read_button_state, button_get_state, button_is_down,
}

pow-suc : (n : ℕ) → 2 ^ suc n ≡ 2 * 2 ^ n
pow-suc n = omega arith

abbrev weight : Bool → ℕ → ℕ
weight a i = if a then 2 ^ i else 0

weight-suc : (a : Bool) (i : ℕ) → weight a (suc i) ≡ 2 * weight a i
weight-suc true i = pow-suc i
weight-suc false i = omega arith

halves : (x k : ℕ) → x / (2 * k) ≡ x / 2 / k
halves x k = sym (div-div-eq-div-mul x 2 k)

-- The bit above, of half the word.
bit-suc : (x i : ℕ) → bit x (suc i) ≡ bit (x / 2) i
bit-suc x i = ap (λ y. y % 2 == 1) (ap (λ k. x / k) (pow-suc i) ∙ halves x (2 ^ i))

bit-weight : (a : Bool) (i : ℕ) → bit (weight a i) i ≡ a
bit-weight true zero = refl
bit-weight false zero = refl
bit-weight a (suc i) =
    let e : weight a (suc i) / 2 ≡ weight a i = omega (arith, weight-suc a i) in
    bit-suc (weight a (suc i)) i ∙ ap (λ x. bit x i) e ∙ bit-weight a i

-- Of the sum of two bits at different places, the bit at the first place.
pub bit-weights : (a b : Bool) (i j : ℕ) → i ≢ j → bit (weight a i + weight b j) i ≡ a
bit-weights a b zero zero h = absurd (h refl)
bit-weights true b zero (suc j) h = let e = weight-suc b j in ground arith
bit-weights false b zero (suc j) h = let e = weight-suc b j in ground arith
bit-weights a true (suc i) zero h =
    let e : (weight a (suc i) + 1) / 2 ≡ weight a i = omega (arith, weight-suc a i) in
    bit-suc (weight a (suc i) + 1) i ∙ ap (λ x. bit x i) e ∙ bit-weight a i
bit-weights a false (suc i) zero h =
    let e : (weight a (suc i) + 0) / 2 ≡ weight a i = omega (arith, weight-suc a i) in
    bit-suc (weight a (suc i) + 0) i ∙ ap (λ x. bit x i) e ∙ bit-weight a i
bit-weights a b (suc i) (suc j) h =
    let e : (weight a (suc i) + weight b (suc j)) / 2 ≡ weight a i + weight b j =
      omega (arith, weight-suc a i, weight-suc b j) in
    bit-suc (weight a (suc i) + weight b (suc j)) i
    ∙ ap (λ x. bit x i) e
    ∙ bit-weights a b i j (λ p. h (ap suc p))

-- The two bits of button_gpio_pressed.
pressed-low : (x y : Bool) → bit ((if x then 1 else 0) + (if y then 2 else 0)) 0 ≡ x
pressed-low true true = refl
pressed-low true false = refl
pressed-low false true = refl
pressed-low false false = refl

pressed-high : (x y : Bool) → bit ((if x then 1 else 0) + (if y then 2 else 0)) 1 ≡ y
pressed-high true true = refl
pressed-high true false = refl
pressed-high false true = refl
pressed-high false false = refl

-- The left button is down with line 0 or 2, the right one with line 1 or 2.
pub state_of-left :
    (b : Build) (lines : ℕ)
    → b.btn_left ≢ b.btn_right
    → bit (state_of b lines) b.btn_left ≡ (bit lines 2 || bit lines 0)
unfolding state_of button_gpio_pressed
state_of-left b lines apart =
    bit-weights (bit (button_gpio_pressed lines) 0) (bit (button_gpio_pressed lines) 1) b.btn_left
      b.btn_right apart
    ∙ pressed-low (bit lines 2 || bit lines 0) (bit lines 2 || bit lines 1)

pub state_of-right :
    (b : Build) (lines : ℕ)
    → b.btn_left ≢ b.btn_right
    → bit (state_of b lines) b.btn_right ≡ (bit lines 2 || bit lines 1)
unfolding state_of button_gpio_pressed
state_of-right b lines apart =
    ap (λ x. bit x b.btn_right)
      (swap (if bit (button_gpio_pressed lines) 0 then 2 ^ b.btn_left else 0)
        (if bit (button_gpio_pressed lines) 1 then 2 ^ b.btn_right else 0))
    ∙ bit-weights (bit (button_gpio_pressed lines) 1) (bit (button_gpio_pressed lines) 0)
        b.btn_right b.btn_left (λ p. apart (sym p))
    ∙ pressed-high (bit lines 2 || bit lines 0) (bit lines 2 || bit lines 1)
  where
    swap : (x y : ℕ) → x + y ≡ y + x
    swap x y = omega arith

if-then :
    {A : Type 0} (c : Bool) (m n : Driver A) (w : World) → c ≡ true → (if c then m else n) w ≡ m w
if-then true m n w h = refl
if-then false m n w h = absurd (cc)

if-else :
    {A : Type 0} (c : Bool) (m n : Driver A) (w : World) → c ≡ false → (if c then m else n) w ≡ n w
if-else true m n w h = absurd (cc)
if-else false m n w h = refl

trace_state-done : (state : ℕ) (w : World) → (v : World) × (trace_state state w ≡ done tt v)
trace_state-done state w =
    by_test
      (w.buttons.trace && (not w.buttons.traced_state_valid || state != w.buttons.traced_state))
  where
    by_test :
        (c : Bool)
        → (v : World) × ((if c
                then (emit (traced state)
                    >> modify_buttons
                        (λ d. record d { traced_state = state; traced_state_valid = true }))
                else pure tt)
              w
            ≡ done tt v)
    by_test true = (
      record w {
        log = traced state ∷ w.log;
        buttons = record (w.buttons) { traced_state = state; traced_state_valid = true };
      },
      refl,
    )
    by_test false = (w, refl)

read_button_state-done :
    (b : Build) (lines : ℕ) (rest : List Answer) (w : World)
    → b.linux ≡ true
    → (v : World) × (read_button_state b (record w { answers = number lines ∷ rest })
        ≡ done (state_of b lines) v)
unfolding read_button_state safe3_button_resources_read read_lines_from
read_button_state-done b lines rest w linux =
    let w1 : World = record w { answers = number lines ∷ rest } in
    let w2 : World = record w { answers = rest } in
    let (v, p) = trace_state-done (state_of b lines) w2 in
    (
      v,
      >>=-done (safe3_button_resources_read b) _ w1 w2 (some lines)
            (if-elim b.linux linux (done (some lines) w2) (done none w1))
          ∙ >>=-done (trace_state (state_of b lines)) (λ _. pure (state_of b lines)) w2 v tt p,
    )
  where
    if-elim : {A : Type 0} (c : Bool) → c ≡ true → (x y : A) → (if c then x else y) ≡ x
    if-elim true h x y = refl
    if-elim false h x y = absurd (cc)

-- A button of the range is asked for on initialized lines: its bit is returned.
button_is_down-bit :
    (b : Build) (button lines : ℕ) (rest : List Answer) (w : World)
    → w.buttons.initialized ≡ true
    → b.linux ≡ true
    → b.btn_left ≤ button
    → button ≤ b.btn_power
    → (v : World) × (button_is_down b button (record w { answers = number lines ∷ rest })
        ≡ done (bit (state_of b lines) button) v)
unfolding button_is_down button_get_state
button_is_down-bit b button lines rest w on linux low high =
    let w1 : World = record w { answers = number lines ∷ rest } in
    let (v, p) = read_button_state-done b lines rest w linux in
    let get : button_get_state b w1 ≡ done (state_of b lines) v =
      if-then w.buttons.initialized (read_button_state b) (pure 0) w1 on ∙ p in
    (
      v,
      if-else (ltb button b.btn_left || ltb b.btn_power button) (pure false)
            (button_get_state b >>= λ state. pure (bit state button)) w1 (ground arith)
          ∙ >>=-done (button_get_state b) (λ state. pure (bit state button)) w1 v (state_of b lines)
              get,
    )

-- On initialized lines whose levels are read at the first attempt, button_is_down says of the left
-- button that line 0 or line 2 is active, and of the right button that line 1 or line 2 is: line 2, the
-- centre of the joystick, presses both. The two buttons differ and are in the firmware's range.
pub button_is_down-lines :
    (b : Build) (lines : ℕ) (rest : List Answer) (w : World)
    → w.buttons.initialized ≡ true
    → b.linux ≡ true
    → b.btn_left ≢ b.btn_right
    → b.btn_left ≤ b.btn_right
    → b.btn_right ≤ b.btn_power
    → ((v : World) × (button_is_down b b.btn_left (record w { answers = number lines ∷ rest })
          ≡ done (bit lines 2 || bit lines 0) v))
      × ((v : World) × (button_is_down b b.btn_right (record w { answers = number lines ∷ rest })
            ≡ done (bit lines 2 || bit lines 1) v))
button_is_down-lines b lines rest w on linux apart order range =
    let (v, p) =
      button_is_down-bit b b.btn_left lines rest w on linux (omega arith) (omega arith) in
    let (x, q) = button_is_down-bit b b.btn_right lines rest w on linux order range in
    (
      (v, p ∙ ap (λ d. done d v) (state_of-left b lines apart)),
      (x, q ∙ ap (λ d. done d x) (state_of-right b lines apart)),
    )
