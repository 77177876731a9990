-- ===== src/Message.antt =====
-- taquin-client-cpp/libs/src/sio_message.h: the class `message` and its subclasses as one data type,
-- a constructor for each subclass. Assertions are on. A double is its 64-bit pattern, which the
-- code only passes on.
pub mod Arrays
pub mod Objects
pub mod Lists
use taquin_client_project.Base.{ℕ, ℤ, Bytes, Bool, List, [], ◌∷◌}
use taquin_client_project.Result.{Result, ok, err, assertion, null_pointer}

mutual
  pub data Message : Type 0 where
    integer : ℤ → Message
    double : ℕ → Message
    string : Bytes → Message
    binary : Bytes → Message
    array : Ptrs → Message
    object : Fields → Message
    boolean : Bool → Message
    null : Message

  -- `message::ptr`
  pub data Ptr : Type 0 where
    nullptr : Ptr
    ptr : Message → Ptr

  -- `vector<message::ptr>`
  pub data Ptrs : Type 0 where
    nil : Ptrs
    cons : Ptr → Ptrs → Ptrs

  -- `map<string,message::ptr>`, in the order of the keys
  pub data Fields : Type 0 where
    end : Fields
    field : Bytes → Ptr → Fields → Fields

pub data Flag : Type 0 where
  flag_integer flag_double flag_string flag_binary : Flag
  flag_array flag_object flag_boolean flag_null : Flag

abbrev pub get_flag : Message → Flag
get_flag (integer v) = flag_integer
get_flag (double v) = flag_double
get_flag (string v) = flag_string
get_flag (binary v) = flag_binary
get_flag (array v) = flag_array
get_flag (object v) = flag_object
get_flag (boolean v) = flag_boolean
get_flag null = flag_null

abbrev pub to_list : Ptrs → List Ptr
to_list nil = []
to_list (cons p ps) = p ∷ to_list ps

abbrev pub of_list : List Ptr → Ptrs
of_list [] = nil
of_list (p ∷ ps) = cons p (of_list ps)

-- `*p`, `p->`
abbrev pub deref : Ptr → Result Message
deref nullptr = err null_pointer
deref (ptr m) = ok m

-- The accessors: the base class asserts, the subclass returns its value.
abbrev pub get_bool : Message → Result Bool
get_bool (boolean v) = ok v
get_bool _ = err assertion

abbrev pub get_int : Message → Result ℤ
get_int (integer v) = ok v
get_int _ = err assertion

-- An integer has a double accessor too; the conversion is the compiler's.
abbrev pub get_double : (ℤ → ℕ) → Message → Result ℕ
get_double convert (double v) = ok v
get_double convert (integer v) = ok (convert v)
get_double convert _ = err assertion

abbrev pub get_string : Message → Result Bytes
get_string (string v) = ok v
get_string _ = err assertion

abbrev pub get_binary : Message → Result Bytes
get_binary (binary v) = ok v
get_binary _ = err assertion

abbrev pub get_vector : Message → Result (List Ptr)
get_vector (array v) = ok (to_list v)
get_vector _ = err assertion

abbrev pub get_map : Message → Result Fields
get_map (object v) = ok v
get_map _ = err assertion
