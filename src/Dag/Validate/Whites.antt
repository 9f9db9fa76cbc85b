-- ===== src/Dag/Validate/Whites.antt =====
-- The number of white keys, which bounds how deep `visit` goes.
use hatchet_workflow.Base.{
  ℕ, ◌+◌, ◌≤◌, ◌<◌, String, ◌≡◌, List, [], ◌∷◌, Memᴰ, Memᴰ-cons, arith, eq_iff, inl, inr, length,
}
use hatchet_workflow.Dag.Validate.{Color, white, gray, Colors, paint}

abbrev is_white : Color → ℕ
is_white white = 1
is_white _ = 0

pub whites : Colors → List String → ℕ
whites c [] = 0
whites c (id ∷ ids) = is_white (c id) + whites c ids

pub whites-le-length : (c : Colors) (ids : List String) → whites c ids ≤ length ids
unfolding whites
whites-le-length c [] = omega arith
whites-le-length c (id ∷ ids) = ground (arith, whites-le-length c ids)

-- Painting white keys only makes fewer of them.
pub whites_mono :
    (c c' : Colors) (ids : List String)
    → ((x : String) → c' x ≡ white → c x ≡ white)
    → whites c' ids ≤ whites c ids
unfolding whites
whites_mono c c' [] h = omega arith
whites_mono c c' (id ∷ ids) h = ground (arith, h id, whites_mono c c' ids h)

-- A colour other than white leaves the white keys of before, or fewer.
paint_back : (c : Colors) (id x : String) → paint c id gray x ≡ white → c x ≡ white
paint_back c id x h = ground (arith, eq_iff id x)

pub whites-paint :
    (c : Colors) (id : String) (ids : List String)
    → c id ≡ white
    → Memᴰ id ids
    → whites (paint c id gray) ids < whites c ids
unfolding whites
whites-paint c id [] w m = elim m [ ]
whites-paint c id (x ∷ ids) w m =
    let rest = whites_mono c (paint c id gray) ids (paint_back c id) in
    elim ((Memᴰ-cons id x ids).0 m) [
      | inl e ↦ ground (arith, rest, eq_iff id x)
      | inr later ↦ ground (arith, whites-paint c id ids w later, paint_back c id x)
    ]
