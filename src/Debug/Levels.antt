-- ===== src/Debug/Levels.antt =====
-- Which debug messages are printed.
use Prim.Native.Nat.{min, bit_and, digits, bit_and-bitwise}
use virtualdisk.Prelude.{
  ℕ, zero, suc, ◌+◌, ◌*◌, ◌/◌, ◌%◌, ◌≤◌, ◌≡◌, refl, inl, inr, Bool, true, false, not, ◌||◌, arith,
  ◌∙◌, ap, ◌==◌, Bool-cases,
}
use virtualdisk.Debug.{
  Area, ss, pnp, ioctl, power, wmi, scsi, comm, Severity, noise, trace, info, bus_dbg, bus_dbg_mask,
  bus_default_debug_output_level, prints,
}

-- The binary digits that two numbers share, within `fuel` digits of the first.
abbrev common : (fuel a b : ℕ) → ℕ
common fuel a b = digits (λ _. 0) min fuel a b

common_enough : (a f g b : ℕ) → a ≤ f → a ≤ g → common f a b ≡ common g a b
common_enough zero zero zero b h h' = refl
common_enough zero zero (suc g) b h h' = refl
common_enough zero (suc f) zero b h h' = refl
common_enough zero (suc f) (suc g) b h h' = refl
common_enough (suc a) zero g b h h' = absurd (omega arith)
common_enough (suc a) (suc f) zero b h h' = absurd (omega arith)
common_enough (suc a) (suc f) (suc g) b h h' =
    omega (arith, common_enough (suc a / 2) f g (b / 2) (omega arith) (omega arith))

-- The lowest digit, and the others.
bit_and_halves : (a b : ℕ) → bit_and a b ≡ bit_and (a / 2) (b / 2) * 2 + min (a % 2) (b % 2)
bit_and_halves zero b = omega (arith, bit_and-bitwise 0 b, bit_and-bitwise 0 (b / 2))
bit_and_halves (suc a) b = omega (
  arith,
  bit_and-bitwise (suc a) b,
  bit_and-bitwise (suc a / 2) (b / 2),
  common_enough (suc a / 2) a (suc a / 2) (b / 2) (omega arith) (omega arith),
)

bit_and_none_le : (f a : ℕ) → a ≤ f → bit_and a 0 ≡ 0
bit_and_none_le f zero h = bit_and-bitwise 0 0
bit_and_none_le zero (suc a) h = absurd (omega arith)
bit_and_none_le (suc f) (suc a) h =
    omega (arith, bit_and_halves (suc a) 0, bit_and_none_le f (suc a / 2) (omega arith))

bit_and_none : (a : ℕ) → bit_and a 0 ≡ 0
bit_and_none a = bit_and_none_le a a (omega arith)

bit_and-twice : (a b : ℕ) → bit_and a (b * 2) ≡ bit_and (a / 2) b * 2
bit_and-twice a b =
    let half : b * 2 / 2 ≡ b = omega arith in
    omega (arith, bit_and_halves a (b * 2), ap (bit_and (a / 2)) half)

-- Whether a mask of a few digits, shifted to the left by `n` digits, meets a number.
shifted : ℕ → ℕ → ℕ
shifted zero mask = mask
shifted (suc n) mask = shifted n mask * 2

halved : ℕ → ℕ → ℕ
halved zero a = a
halved (suc n) a = halved n (a / 2)

bit_and-shifted :
    (n a mask : ℕ) → bit_and a (shifted n mask) ≡ shifted n (bit_and (halved n a) mask)
unfolding shifted halved
bit_and-shifted zero a mask = refl
bit_and-shifted (suc n) a mask =
    omega (arith, bit_and-twice a (shifted n mask), bit_and-shifted n (a / 2) mask)

shifted_zero : (n a : ℕ) → shifted n a ≡ 0 → a ≡ 0
unfolding shifted
shifted_zero zero a h = h
shifted_zero (suc n) a h = shifted_zero n a (omega (arith, h))

zero-shifted : (n : ℕ) → shifted n 0 ≡ 0
unfolding shifted
zero-shifted zero = refl
zero-shifted (suc n) = omega (arith, zero-shifted n)

bit_and-one : (a : ℕ) → bit_and a 1 ≡ a % 2
bit_and-one a = omega (arith, bit_and_halves a 1, bit_and_none (a / 2))

bit_and-two : (a : ℕ) → bit_and a 2 ≡ a / 2 % 2 * 2
bit_and-two a = omega (arith, bit_and-twice a 1, bit_and-one (a / 2))

bit_and-three : (a : ℕ) → bit_and a 3 ≡ a % 4
bit_and-three a = omega (arith, bit_and_halves a 3, bit_and-one (a / 2))

abbrev is_set : ℕ → Bool
is_set n = not (n == 0)

is_set-shifted : (n a : ℕ) → is_set (shifted n a) ≡ is_set a
is_set-shifted n a = elim (Bool-cases (a == 0)) [
  | inl e ↦
      let none : a ≡ 0 = ground (arith, e) in
      let all : shifted n a ≡ 0 = ap (shifted n) none ∙ zero-shifted n in ground (arith, e, all)
  | inr e ↦ elim (Bool-cases (shifted n a == 0)) [
    | inl f ↦
        let none : shifted n a ≡ 0 = ground (arith, f) in ground (arith, e, shifted_zero n a none)
    | inr f ↦ ground (arith, e, f)
  ]
]

-- A mask that joins the two lowest digits is met where one of them is.
joined :
    (n d : ℕ)
    → is_set (bit_and d (shifted n 3))
      ≡ (is_set (bit_and d (shifted n 1)) || is_set (bit_and d (shifted n 2)))
joined n d =
    let a = halved n d in
    rw
      (
        bit_and-shifted n d 1,
        bit_and-shifted n d 2,
        bit_and-shifted n d 3,
        is_set-shifted n (bit_and a 1),
        is_set-shifted n (bit_and a 2),
        is_set-shifted n (bit_and a 3),
        bit_and-one a,
        bit_and-two a,
        bit_and-three a,
      )
      (ground arith)

-- The areas whose level for information has a digit of its own.
abbrev pub has_info : Area → Bool
has_info scsi = false
has_info comm = false
has_info _ = true

-- At every debug level, an information message of the SCSI or the communication part is printed
-- exactly if a noise or a trace message of that part is: the level has no digit of its own.
pub prints-info :
    (a : Area) (debug_level : ℕ)
    → has_info a ≡ false
    → prints debug_level (bus_dbg a info)
      ≡ (prints debug_level (bus_dbg a noise) || prints debug_level (bus_dbg a trace))
unfolding prints bus_dbg shifted
prints-info ss d h = ground (arith, h)
prints-info pnp d h = ground (arith, h)
prints-info ioctl d h = ground (arith, h)
prints-info power d h = ground (arith, h)
prints-info wmi d h = ground (arith, h)
prints-info scsi d h = joined 20 d
prints-info comm d h = joined 24 d

-- The default level prints the messages of the start and of PnP, of every severity, and no other.
default_prints :
    (a : Area) (s : Severity)
    → prints bus_default_debug_output_level (bus_dbg a s)
      ≡ elim a [ ss ↦ true | pnp ↦ true | _ ↦ false ]
unfolding prints bus_default_debug_output_level bus_dbg bus_dbg_mask
default_prints a s = ground arith
