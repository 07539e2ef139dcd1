-- ===== src/Text/Visible.antt =====
-- A text that starts and ends with a visible ASCII character keeps all its bytes.
use go_casclib.Common.{
  ℕ, zero, suc, ◌<◌, ◌≡◌, refl, ap, ◌∙◌, arith, false, [], ◌∷◌, ◌++◌, length, append_assoc,
  append-nil, All, All-append, sym,
}
use go_casclib.Binary.{Bytes}
use go_casclib.Text.Spaces.{
  is_space_1, is_space_2, is_space_3, space_width, space_width_back, strip_front, backward,
  trim_space,
}

-- A character of ASCII that is no white space and no control character.
pub record IsVisible (b : ℕ) : Type 0 where
  pub above : 32 < b
  pub ascii : b < 127

is_space_1-IsVisible : (b : ℕ) → IsVisible b → is_space_1 b ≡ false
is_space_1-IsVisible b h = ground (arith, h.above, h.ascii)

is_space_2-front : (a b : ℕ) → IsVisible a → is_space_2 a b ≡ false
is_space_2-front a b h = ground (arith, h.ascii)

is_space_3-front : (a b c : ℕ) → IsVisible a → is_space_3 a b c ≡ false
is_space_3-front a b c h = ground (arith, h.ascii)

is_space_2-back : (a b : ℕ) → IsVisible b → is_space_2 a b ≡ false
is_space_2-back a b h = ground (arith, h.ascii)

is_space_3-back : (a b c : ℕ) → IsVisible c → is_space_3 a b c ≡ false
is_space_3-back a b c h = ground (arith, h.ascii)

space_width-IsVisible : (s : Bytes) → All IsVisible s → space_width s ≡ 0
space_width-IsVisible [] h = refl
space_width-IsVisible (a ∷ []) (v, h) = rw (is_space_1-IsVisible a v)
space_width-IsVisible (a ∷ b ∷ []) (v, h) = rw (is_space_1-IsVisible a v, is_space_2-front a b v)
space_width-IsVisible (a ∷ b ∷ c ∷ s) (v, h) =
    rw (is_space_1-IsVisible a v, is_space_2-front a b v, is_space_3-front a b c v)

space_width_back-IsVisible : (s : Bytes) → All IsVisible s → space_width_back s ≡ 0
space_width_back-IsVisible [] h = refl
space_width_back-IsVisible (a ∷ []) (v, h) = rw (is_space_1-IsVisible a v)
space_width_back-IsVisible (b ∷ a ∷ []) (v, h) =
    rw (is_space_1-IsVisible b v, is_space_2-back a b v)
space_width_back-IsVisible (c ∷ b ∷ a ∷ s) (v, h) =
    rw (is_space_1-IsVisible c v, is_space_2-back b c v, is_space_3-back a b c v)

strip_front-none : (width : Bytes → ℕ) (n : ℕ) (s : Bytes) → width s ≡ 0 → strip_front width n s ≡ s
unfolding strip_front
strip_front-none width zero s e = refl
strip_front-none width (suc n) s e = rw (e, strip_front)

backward-append : (s t : Bytes) → backward (s ++ t) ≡ backward t ++ backward s
backward-append [] t = sym (append-nil (backward t))
backward-append (b ∷ s) t =
    ap (λ r. r ++ (b ∷ [])) (backward-append s t) ∙ append_assoc (backward t) (backward s) (b ∷ [])

backward-backward : (s : Bytes) → backward (backward s) ≡ s
backward-backward [] = refl
backward-backward (b ∷ s) =
    backward-append (backward s) (b ∷ []) ∙ ap (λ t. b ∷ t) (backward-backward s)

backward-All : (s : Bytes) → All IsVisible s → All IsVisible (backward s)
backward-All [] h = tt
backward-All (b ∷ s) (v, h) = All-append IsVisible (backward s) (b ∷ []) (backward-All s h) (v, tt)

pub trim_space-IsVisible : (s : Bytes) → All IsVisible s → trim_space s ≡ s
unfolding trim_space
trim_space-IsVisible s h =
    let front = strip_front-none space_width (length s) s (space_width-IsVisible s h) in
    let back =
      strip_front-none space_width_back (length s) (backward s)
        (space_width_back-IsVisible (backward s) (backward-All s h)) in
    rw (front, back) (backward-backward s)
