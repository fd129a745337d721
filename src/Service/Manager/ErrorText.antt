-- ===== src/Service/Manager/ErrorText.antt =====
-- The text of an error fits into the buffer of the caller.
use virtualdisk.Prelude.{
  ℕ, ◌+◌, ◌-◌, ◌≤◌, ◌<◌, Option, none, some, List, [], ◌∷◌, ◌++◌, arith, length, length-append,
  length-take, take, inl, inr, Bool-cases, ◌==◌, ◌||◌, ltb,
}
use virtualdisk.Text.Digits.{length-print_hex}
use virtualdisk.Service.Manager.{print_x, get_last_error_text}

length-print_x : (x : ℕ) → length (print_x x) ≤ 8
unfolding print_x
length-print_x x = length-print_hex 1 x

length-written :
    (message : List ℕ) (error : ℕ)
    → length (take (length message - 2) message ++ 32 ∷ 40 ∷ 48 ∷ 120 ∷ (print_x error ++ 41 ∷ []))
      ≤ 13 + (length message - 2)
length-written message error = omega (
  arith,
  length-append (take (length message - 2) message)
      (32 ∷ 40 ∷ 48 ∷ 120 ∷ (print_x error ++ 41 ∷ [])),
  length-append (print_x error) (41 ∷ []),
  length-take (length message - 2) message,
  length-print_x error,
)

-- GetLastErrorText writes at most `size` characters, its terminator included, whatever the message
-- and the error are: _stprintf_s never runs out of room.
get_last_error_text_fits :
    (message : Option (List ℕ)) (error size : ℕ)
    → 0 < size
    → length (get_last_error_text message error size) < size
unfolding get_last_error_text
get_last_error_text_fits none error size h = h
get_last_error_text_fits (some message) error size h =
    elim (Bool-cases (length message == 0 || ltb size (length message + 14))) [
      | inl e ↦ rw e h
      | inr e ↦
          let bound : 13 + length message < size = ground (arith, e) in
          rw e (omega (arith, length-written message error, bound))
    ]
