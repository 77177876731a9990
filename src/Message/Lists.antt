-- ===== src/Message/Lists.antt =====
-- `message::list` of sio_message.h.
use taquin_client_project.Base.{Bytes, Option, none, some, List, [], ◌∷◌}
use taquin_client_project.Message.{Message, Ptr, nullptr, ptr, string, binary, array, of_list}

-- The constructors from one value: a null message or a null binary gives the empty list.
unfoldable pub from_message : Ptr → List Ptr
from_message nullptr = []
from_message (ptr m) = ptr m ∷ []

unfoldable pub from_text : Bytes → List Ptr
from_text text = ptr (string text) ∷ []

unfoldable pub from_binary : Option Bytes → List Ptr
from_binary none = []
from_binary (some b) = ptr (binary b) ∷ []

-- `to_array_message(event_name)`
unfoldable pub to_event_message : Bytes → List Ptr → Message
to_event_message name v = array (of_list (ptr (string name) ∷ v))

-- `to_array_message()`
unfoldable pub to_array_message : List Ptr → Message
to_array_message v = array (of_list v)
