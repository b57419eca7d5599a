-- ===== src/Catalog/Rooms.antt =====
-- How many entries of a directory (a1b/a1fs_helper.c) are unused.
use extent_based_fs.Base.{
  ℕ, ◌≤◌, ◌<◌, ◌≡◌, refl, sym, ◌∙◌, List, [], ◌∷◌, none, some, arith, length,
}
use extent_based_fs.Types.{FsCtx}
use extent_based_fs.Image.{Bytes}
use extent_based_fs.Catalog.{Row, unused, used, Names, find_row, rooms}
use extent_based_fs.Catalog.Rows.{same_name_refl}
use extent_based_fs.Catalog.Shows.{Shows}
use extent_based_fs.Catalog.Steps.{Represents}

rooms-le :
    (img : Bytes) (es : List ℕ) (rows : List Row) → Shows img es rows → rooms rows ≤ length es
unfolding rooms
rooms-le img [] [] h = omega arith
rooms-le img [] (r ∷ rows) h = absurd h
rooms-le img (a ∷ es) [] h = absurd h
rooms-le img (a ∷ es) (unused ∷ rows) h = omega (arith, rooms-le img es rows h.1)
rooms-le img (a ∷ es) (used name i ∷ rows) h = omega (arith, rooms-le img es rows h.1)

rooms-all :
    (img : Bytes) (es : List ℕ) (rows : List Row)
    → Shows img es rows
    → ((name : List ℕ) → find_row name rows ≡ none)
    → rooms rows ≡ length es
unfolding rooms find_row
rooms-all img [] [] h empty = refl
rooms-all img [] (r ∷ rows) h empty = absurd h
rooms-all img (a ∷ es) [] h empty = absurd h
rooms-all img (a ∷ es) (unused ∷ rows) h empty = omega (arith, rooms-all img es rows h.1 empty)
rooms-all img (a ∷ es) (used name i ∷ rows) h empty =
    let named = rw (same_name_refl name) at (empty name) in cc

rooms-some :
    (img : Bytes) (name : List ℕ) {ino : ℕ} (es : List ℕ) (rows : List Row)
    → Shows img es rows
    → find_row name rows ≡ some ino
    → rooms rows < length es
unfolding rooms find_row
rooms-some img name [] [] h e = cc
rooms-some img name [] (r ∷ rows) h e = absurd h
rooms-some img name (a ∷ es) [] h e = absurd h
rooms-some img name (a ∷ es) (unused ∷ rows) h e = omega (arith, rooms-some img name es rows h.1 e)
rooms-some img name (a ∷ es) (used other i ∷ rows) h e = omega (arith, rooms-le img es rows h.1)

module _ {s : FsCtx} {d : ℕ} {es : List ℕ} {m : Names} {room : ℕ}
    (r : Represents s d es m room) where
  pub room-le : room ≤ length es
  room-le = rw (← r.left) (rooms-le s.image es r.rows r.shows)

  pub room-all : ((name : List ℕ) → m name ≡ none) → room ≡ length es
  room-all empty =
      sym r.left ∙ rooms-all s.image es r.rows r.shows (λ name. r.names name ∙ empty name)

  pub room-some : (name : List ℕ) {ino : ℕ} → m name ≡ some ino → room < length es
  room-some name e = rw (← r.left) (rooms-some s.image name es r.rows r.shows (r.names name ∙ e))
