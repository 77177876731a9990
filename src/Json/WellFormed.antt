-- ===== src/Json/WellFormed.antt =====
-- The messages that JSON carries unchanged, and their binaries.
use taquin_client_project.Base.{
  suc, Bytes, bytes_eq, false, List, [], ◌∷◌, ◌++◌, length, length-append, append_assoc, ◌≡◌, refl,
  arith, ap, sym, ◌∙◌,
}
use taquin_client_project.Message.{
  Message, Ptr, Ptrs, Fields, nullptr, ptr, nil, cons, end, field, binary, array, object,
}
use taquin_client_project.Json.{Buffers, bin_place_holder, frame_message}
use taquin_client_project.Json.Sorted.{IsSorted}

-- No empty pointer inside, each map in order, and no key "_placeholder".
abbrev mutual
  pub WellFormed : Message → Type 0
  WellFormed (array ps) = WellFormedItems ps
  WellFormed (object fs) = IsSorted fs × WellFormedFields fs
  WellFormed _ = Unit {0}

  pub WellFormedPtr : Ptr → Type 0
  WellFormedPtr nullptr = ⊥
  WellFormedPtr (ptr m) = WellFormed m

  pub WellFormedItems : Ptrs → Type 0
  WellFormedItems nil = Unit {0}
  WellFormedItems (cons p ps) = WellFormedPtr p × WellFormedItems ps

  pub WellFormedFields : Fields → Type 0
  WellFormedFields end = Unit {0}
  WellFormedFields (field k p fs) =
      (bytes_eq k bin_place_holder ≡ false) × WellFormedPtr p × WellFormedFields fs

-- The binary messages inside, from left to right.
abbrev mutual
  pub binaries : Message → List Bytes
  binaries (binary b) = b ∷ []
  binaries (array ps) = binaries_items ps
  binaries (object fs) = binaries_fields fs
  binaries _ = []

  pub binaries_ptr : Ptr → List Bytes
  binaries_ptr nullptr = []
  binaries_ptr (ptr m) = binaries m

  pub binaries_items : Ptrs → List Bytes
  binaries_items nil = []
  binaries_items (cons p ps) = binaries_ptr p ++ binaries_items ps

  pub binaries_fields : Fields → List Bytes
  binaries_fields end = []
  binaries_fields (field k p fs) = binaries_ptr p ++ binaries_fields fs

-- An attachment on the wire: the frame byte and the bytes.
abbrev pub frames : List Bytes → Buffers
frames [] = []
frames (b ∷ bs) = (frame_message ∷ b) ∷ frames bs

pub frames-append : (xs ys : List Bytes) → frames (xs ++ ys) ≡ frames xs ++ frames ys
frames-append [] ys = refl
frames-append (x ∷ xs) ys = ap (◌∷◌ (frame_message ∷ x)) (frames-append xs ys)

pub length-frames : (xs : List Bytes) → length (frames xs) ≡ length xs
length-frames [] = refl
length-frames (x ∷ xs) = ap suc (length-frames xs)

pub accepted-append :
    (bs : Buffers) (xs ys : List Bytes) → (bs ++ frames xs) ++ frames ys ≡ bs ++ frames (xs ++ ys)
accepted-append bs xs ys =
    append_assoc bs (frames xs) (frames ys) ∙ ap (◌++◌ bs) (sym (frames-append xs ys))

pub regroup :
    (pre xs ys post : List Bytes) → pre ++ ((xs ++ ys) ++ post) ≡ (pre ++ xs) ++ (ys ++ post)
regroup pre xs ys post =
    ap (◌++◌ pre) (append_assoc xs ys post) ∙ sym (append_assoc pre xs (ys ++ post))

pub length-pre :
    (pre bs xs : List Bytes)
    → length pre ≡ length bs
    → length (pre ++ xs) ≡ length (bs ++ frames xs)
length-pre pre bs xs l =
    omega (arith, length-append pre xs, length-append bs (frames xs), length-frames xs)
