-- ===== src/Message/Arrays.antt =====
-- `array_message` of sio_message.h, and the vector operations that `message::list` shares with it.
use taquin_client_project.Base.{
  ℕ, Bytes, Option, none, some, List, [], ◌∷◌, ◌++◌, take, drop, get_elem?, length,
}
use taquin_client_project.Message.{Ptr, nullptr, ptr, string, binary}

-- `push_back`; a null message is dropped.
unfoldable pub push : List Ptr → Ptr → List Ptr
push v nullptr = v
push v (ptr m) = v ++ ptr m ∷ []

unfoldable pub push_text : List Ptr → Bytes → List Ptr
push_text v text = v ++ ptr (string text) ∷ []

unfoldable pub push_binary : List Ptr → Option Bytes → List Ptr
push_binary v none = v
push_binary v (some b) = v ++ ptr (binary b) ∷ []

-- `_v.insert(_v.begin()+pos, message)`, for pos at most the size; a null message is kept.
unfoldable pub insert_at : ℕ → Ptr → List Ptr → List Ptr
insert_at pos p v = take pos v ++ (p ∷ drop pos v)

unfoldable pub insert_text : ℕ → Bytes → List Ptr → List Ptr
unfolding insert_at
insert_text pos text v = insert_at pos (ptr (string text)) v

unfoldable pub insert_binary : ℕ → Option Bytes → List Ptr → List Ptr
insert_binary pos none v = v
insert_binary pos (some b) v = insert_at pos (ptr (binary b)) v

-- `size` and `at`, with `none` where the index is out of range.
abbrev pub size : List Ptr → ℕ
size v = length v

abbrev pub at : List Ptr → ℕ → Option Ptr
at v i = get_elem? v i
