-- ===== src/Message/Objects.antt =====
-- `object_message` of sio_message.h: a `std::map` from strings to message pointers.
use taquin_client_project.Base.{
  Bytes, Bool, true, false, Option, none, some, bytes_eq, bytes_lt, if◌then◌else◌,
}
use taquin_client_project.Message.{Ptr, Fields, nullptr, ptr, string, binary, end, field}

-- `_v.find(key)`
unfoldable pub find_field : Bytes → Fields → Option Ptr
find_field k end = none
find_field k (field j p fs) = if bytes_eq j k then some p else find_field k fs

-- `_v[key] = message`
unfoldable pub insert : Bytes → Ptr → Fields → Fields
insert k p end = field k p end
insert k p (field j q fs) =
    if bytes_eq j k
    then field k p fs
    else if bytes_lt k j
    then field k p (field j q fs)
    else field j q (insert k p fs)

unfoldable pub insert_text : Bytes → Bytes → Fields → Fields
insert_text k text fs = insert k (ptr (string text)) fs

-- A null binary is not stored.
unfoldable pub insert_binary : Bytes → Option Bytes → Fields → Fields
insert_binary k none fs = fs
insert_binary k (some b) fs = insert k (ptr (binary b)) fs

unfoldable pub has : Bytes → Fields → Bool
has k fs = elim (find_field k fs) [ none ↦ false | some p ↦ true ]

-- `at` and `operator[]` of the class: `not_found` is an empty pointer.
unfoldable pub at : Bytes → Fields → Ptr
at k fs = elim (find_field k fs) [ none ↦ nullptr | some p ↦ p ]
