-- ===== src/Json/Sorted.antt =====
-- A `std::map` that is filled in the order of its keys: each new key goes to the end.
use taquin_client_project.Base.{
  Bytes, bytes_eq, bytes_lt, bytes_eq_iff, bytes_lt_irrefl, bytes_lt_trans, true, ◌≡◌, refl, ap,
  ◌∙◌, Bool-cases, inl, inr,
}
use taquin_client_project.Message.{Ptr, Fields, end, field}
use taquin_client_project.Message.Objects.{insert}

-- Every key comes after k.
abbrev pub After : Bytes → Fields → Type 0
After k end = Unit {0}
After k (field j p fs) = (bytes_lt k j ≡ true) × After k fs

-- Every key comes before k.
abbrev pub Before : Fields → Bytes → Type 0
Before end k = Unit {0}
Before (field j p fs) k = (bytes_lt j k ≡ true) × Before fs k

-- The order that every `std::map` keeps.
abbrev pub IsSorted : Fields → Type 0
IsSorted end = Unit {0}
IsSorted (field j p fs) = After j fs × IsSorted fs

abbrev pub join : Fields → Fields → Fields
join end fs = fs
join (field k p acc) fs = field k p (join acc fs)

-- The insertions of a loop over `fs`.
unfoldable pub insert_all : Fields → Fields → Fields
insert_all end acc = acc
insert_all (field k p fs) acc = insert_all fs (insert k p acc)

insert-join :
    (acc : Fields) (k : Bytes) (p : Ptr) → Before acc k → insert k p acc ≡ join acc (field k p end)
unfolding insert
insert-join end k p b = refl
insert-join (field j q acc) k p b = elim (Bool-cases (bytes_eq j k)) [
  | inl e ↦ cc (b.0, (bytes_eq_iff j k).0 e, bytes_lt_irrefl k)
  | inr e ↦ elim (Bool-cases (bytes_lt k j)) [
    | inl l ↦ cc (bytes_lt_trans j k j b.0 l, bytes_lt_irrefl j)
    | inr n ↦ rw (e, n) (ap (field j q) (insert-join acc k p b.1))
  ]
]

join_assoc : (a b c : Fields) → join (join a b) c ≡ join a (join b c)
join_assoc end b c = refl
join_assoc (field k p a) b c = ap (field k p) (join_assoc a b c)

Before-join :
    (acc : Fields) (k j : Bytes) (p : Ptr)
    → Before acc k
    → bytes_lt k j ≡ true
    → Before (join acc (field k p end)) j
Before-join end k j p b h = (h, tt)
Before-join (field i q acc) k j p b h = (bytes_lt_trans i k j b.0 h, Before-join acc k j p b.1 h)

-- The keys of `acc` before those of `fs`.
abbrev pub Precedes : Fields → Fields → Type 0
Precedes acc end = Unit {0}
Precedes acc (field k p fs) = Before acc k × Precedes acc fs

Precedes-join :
    (acc fs : Fields) (k : Bytes) (p : Ptr)
    → Before acc k
    → After k fs
    → Precedes (join acc (field k p end)) fs
Precedes-join acc end k p b a = tt
Precedes-join acc (field j q fs) k p b a =
    (Before-join acc k j p b a.0, Precedes-join acc fs k p b a.1)

insert_all-join :
    (fs acc : Fields) → IsSorted fs → Precedes acc fs → insert_all fs acc ≡ join acc fs
unfolding insert_all
insert_all-join end acc s b = join-end acc
  where
    join-end : (a : Fields) → a ≡ join a end
    join-end end = refl
    join-end (field k p a) = ap (field k p) (join-end a)
insert_all-join (field k p fs) acc s b = rw (insert-join acc k p b.0) (
    insert_all-join fs (join acc (field k p end)) s.1 (Precedes-join acc fs k p b.0 s.0)
    ∙ join_assoc acc (field k p end) fs)

Precedes-end : (fs : Fields) → Precedes end fs
Precedes-end end = tt
Precedes-end (field k p fs) = (tt, Precedes-end fs)

-- Filling an empty map with sorted fields gives those fields.
pub insert_all_sorted : (fs : Fields) → IsSorted fs → insert_all fs end ≡ fs
insert_all_sorted fs s = insert_all-join fs end s (Precedes-end fs)
