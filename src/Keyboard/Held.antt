-- ===== src/Keyboard/Held.antt =====
-- The shift keys of rizzos/src/userinput/keyboard.c over a sequence of scan codes.
use rizzos.Base.{
  ℕ, ◌+◌, ◌≡◌, refl, ◌∙◌, ap, Bool, true, false, List, [], ◌∷◌, ◌==◌, if◌then◌else◌, arith,
}
use rizzos.Keyboard.{Keyboard, left_shift, right_shift, handle_keyboard, after_keys}

-- Whether the key `c` is down after the scan codes `cs`, if `before` says whether it was: its last
-- code decides, a press by the code itself and a release by the code with bit 7.
unfoldable pub held : (c : ℕ) → Bool → List ℕ → Bool
held c before [] = before
held c before (x ∷ xs) =
    held c (if x == c then true else if x == c + 0x80 then false else before) xs

one_key :
    (beyond : ℕ) (k : Keyboard) (x : ℕ)
    → ((handle_keyboard beyond k x).0.is_left_shift_pressed ≡ (
        if x == left_shift
        then true
        else if x == left_shift + 0x80
        then false
        else k.is_left_shift_pressed))
      × ((handle_keyboard beyond k x).0.is_right_shift_pressed ≡ (
          if x == right_shift
          then true
          else if x == right_shift + 0x80
          then false
          else k.is_right_shift_pressed))
unfolding handle_keyboard
one_key beyond k x = (ground arith, ground arith)

-- After any sequence of scan codes, each of the two shift flags says whether that key is down: the
-- last press or release of the key decides, and before the first of them the flag is as it was.
pub after_keys-held :
    (beyond : ℕ) (k : Keyboard) (cs : List ℕ)
    → ((after_keys beyond k cs).is_left_shift_pressed ≡ held left_shift k.is_left_shift_pressed cs)
      × ((after_keys beyond k cs).is_right_shift_pressed
          ≡ held right_shift k.is_right_shift_pressed cs)
unfolding after_keys held
after_keys-held beyond k [] = (refl, refl)
after_keys-held beyond k (c ∷ cs) =
    let step = one_key beyond k c in
    let rest = after_keys-held beyond (handle_keyboard beyond k c).0 cs in
    (
      rest.0 ∙ ap (λ b. held left_shift b cs) step.0,
      rest.1 ∙ ap (λ b. held right_shift b cs) step.1,
    )
