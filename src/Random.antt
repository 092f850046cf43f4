-- ===== src/Random.antt =====
-- platform/raspberry-pi/random_linux.c: the bytes of the kernel's random source for the firmware.
use virtual_trezor.Prelude.{
  ℕ, ◌+◌, ◌≡◌, refl, Option, none, some, List, [], ◌∷◌, map, ap, ◌≤◌, length, ◌==◌, Bool-cases, inl,
  inr, if◌then◌else◌, arith,
}
use virtual_trezor.Exec.{Exec, Returns, Returns->>=, Returns_imp, ◌>>=◌, pure, done, died, blocked}
use virtual_trezor.Protocol.{Answer, failed, number, buffer}

-- The static variable, the results of fopen and fread, and how often the source was opened.
pub record Source : Type 0 where
  pub random_source : Option ℕ
  pub answers : List Answer
  pub opened : ℕ

-- The two calls of `abort`.
pub data RandomFault : Type 0 where
  open_random_source short_read : RandomFault

abbrev opened_as : Answer → List Answer → Exec RandomFault Source ℕ
opened_as (number file) rest s =
    done file (record s { random_source = some file; answers = rest; opened = s.opened + 1 })
opened_as (failed errno) rest s = died open_random_source (record s { answers = rest })
opened_as (buffer bytes) rest s = died open_random_source (record s { answers = rest })

abbrev open_from : Option ℕ → List Answer → Exec RandomFault Source ℕ
open_from (some file) answers s = done file s
open_from none [] s = blocked s
open_from none (a ∷ rest) s = opened_as a rest s

-- fread returns the bytes that it stored.
abbrev read_from : ℕ → List Answer → Exec RandomFault Source (List ℕ)
read_from length' [] s = blocked s
read_from length' (buffer bytes ∷ rest) s =
    if length bytes == length'
    then done bytes (record s { answers = rest })
    else died short_read (record s { answers = rest })
read_from length' (number n ∷ rest) s = died short_read (record s { answers = rest })
read_from length' (failed errno ∷ rest) s = died short_read (record s { answers = rest })

-- The bytes that are in the buffer when it returns.
unfoldable pub random_buffer : ℕ → Exec RandomFault Source (List ℕ)
random_buffer length' =
    (λ s. open_from s.random_source s.answers s) >>= λ file s. read_from length' s.answers s

-- The firmware's requests, one after the other.
unfoldable pub fill_all : List ℕ → Exec RandomFault Source (List (List ℕ))
fill_all [] = pure []
fill_all (n ∷ ns) = random_buffer n >>= λ bytes. fill_all ns >>= λ parts. pure (bytes ∷ parts)

-- How often the source may still be opened.
abbrev left : Option ℕ → ℕ
left none = 1
left (some file) = 0

-- The source is open and was opened at most as often as it might be.
abbrev Opens : Source → Source → Type 0
Opens s s' = (s'.opened + left s'.random_source ≤ s.opened + left s.random_source)

read-length :
    (n : ℕ) (answers : List Answer) (s : Source)
    → Returns (read_from n answers s) λ bytes s'.
      (length bytes ≡ n) × (s'.random_source ≡ s.random_source) × (s'.opened ≡ s.opened)
read-length n [] s = tt
read-length n (failed e ∷ rest) s = tt
read-length n (number k ∷ rest) s = tt
read-length n (buffer bytes ∷ rest) s = elim (Bool-cases (length bytes == n)) [
  | inr short ↦ rw short tt
  | inl whole ↦ rw whole (ground arith, refl, refl)
]

open-Opens :
    (o : Option ℕ) (answers : List Answer) (s : Source)
    → Returns
        (open_from o answers (record s { random_source = o }))
        λ _ s'. Opens (record s { random_source = o }) s'
open-Opens (some file) answers s = omega arith
open-Opens none [] s = tt
open-Opens none (number file ∷ rest) s = omega arith
open-Opens none (failed e ∷ rest) s = tt
open-Opens none (buffer b ∷ rest) s = tt

random_buffer-Opens :
    (n : ℕ) (s : Source) → Returns (random_buffer n s) λ bytes s'. (length bytes ≡ n) × Opens s s'
unfolding random_buffer
random_buffer-Opens n s =
    Returns->>= (λ x. open_from x.random_source x.answers x) (λ file x. read_from n x.answers x)
      (λ _ x. Opens s x) (λ bytes x. (length bytes ≡ n) × Opens s x) s
      (open-Opens s.random_source s.answers s)
      λ file x h.
        Returns_imp
          (λ bytes y.
            (length bytes ≡ n) × (y.random_source ≡ x.random_source) × (y.opened ≡ x.opened))
          (λ bytes y. (length bytes ≡ n) × Opens s y) (read_from n x.answers x)
          (λ bytes y (a, b, c). (a, let e = ap left b in omega arith)) (read-length n x.answers x)

left-le : (o : Option ℕ) → left o ≤ 1
left-le none = omega arith
left-le (some file) = omega arith

fill-Opens :
    (ns : List ℕ) (s : Source)
    → Returns (fill_all ns s) λ parts s'. (map length parts ≡ ns) × Opens s s'
unfolding fill_all
fill-Opens [] s = (refl, omega arith)
fill-Opens (n ∷ ns) s =
    Returns->>= (random_buffer n) (λ bytes. fill_all ns >>= λ parts. pure (bytes ∷ parts))
      (λ bytes x. (length bytes ≡ n) × Opens s x)
      (λ parts x. (map length parts ≡ n ∷ ns) × Opens s x) s (random_buffer-Opens n s)
      λ bytes x (a, b).
        Returns->>= (fill_all ns) (λ parts. pure (bytes ∷ parts))
          (λ parts y. (map length parts ≡ ns) × Opens x y)
          (λ parts y. (map length parts ≡ n ∷ ns) × Opens s y) x (fill-Opens ns x)
          λ parts y (c, d). (cc, omega arith)

-- However many requests the firmware makes, each that returns has filled its buffer with as many bytes
-- as were asked for, and all together have opened the random source at most once.
pub fill_all-lengths :
    (ns : List ℕ) (s : Source)
    → Returns (fill_all ns s) λ parts s'. (map length parts ≡ ns) × (s'.opened ≤ s.opened + 1)
fill_all-lengths ns s =
    Returns_imp (λ parts x. (map length parts ≡ ns) × Opens s x)
      (λ parts x. (map length parts ≡ ns) × (x.opened ≤ s.opened + 1)) (fill_all ns s)
      (λ parts x (a, b). (a, let e = left-le s.random_source in omega arith)) (fill-Opens ns s)
