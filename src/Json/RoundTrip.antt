-- ===== src/Json/RoundTrip.antt =====
-- `accept_message` and `from_json` of sio_packet.cpp are inverse on the messages that JSON can carry.
use taquin_client_project.Base.{
  ℕ, ◌<◌, ◌^◌, Bytes, bytes_eq, false, List, [], ◌∷◌, ◌++◌, pos, to_int32, to_int32_small, length,
  length-append, append_assoc, append-nil, get_elem?-append_right, none, ◌≡◌, refl, arith, ap, sym,
  ◌∙◌, subst,
}
use taquin_client_project.Result.{Result, ok}
use taquin_client_project.Message.{
  Message, Ptr, Ptrs, Fields, nullptr, ptr, nil, cons, end, field, integer, double, string, binary,
  array, object, boolean, null,
}
use taquin_client_project.Message.Objects.{insert}
use taquin_client_project.Json.{
  Buffers, Value, Members, json_object, json_array, json_int64, json_double, json_string, json_bool,
  json_null, json_get_int, no_values, value, no_members, member, accept_message, accept_ptr,
  accept_items, accept_fields, accept_binary, from_json, from_items, from_members, find_member,
  is_place_holder, json_num, attachment, bin_place_holder,
}
use taquin_client_project.Json.Sorted.{insert_all, insert_all_sorted}
use taquin_client_project.Json.WellFormed.{
  WellFormed, WellFormedPtr, WellFormedItems, WellFormedFields, binaries, binaries_ptr,
  binaries_items, binaries_fields, frames, frames-append, length-frames, accepted-append, regroup,
  length-pre,
}

-- What `accept_message` gave for a part, and how `from_json` reads it among all attachments.
record Reads {V R : Type 0} (r : Result (V × Buffers)) (read : V → Buffers → Result R) (goal : R)
    (bs : Buffers) (bins : List Bytes) : Type 0 where
  val : V
  accepted : r ≡ ok (val, bs ++ frames bins)
  reads :
      (pre post : List Bytes)
      → length pre ≡ length bs
      → length (pre ++ (bins ++ post)) < 2 ^ 31
      → read val (pre ++ (bins ++ post)) ≡ ok goal

-- A part that is read among the attachments of a longer message.
module _ {V R : Type 0} {r : Result (V × Buffers)} {read : V → Buffers → Result R} {goal : R}
    (bs : Buffers) where
  Reads-first :
      (xs ys : List Bytes) (part : Reads r read goal bs xs) (pre post : List Bytes)
      → length pre ≡ length bs
      → length (pre ++ ((xs ++ ys) ++ post)) < 2 ^ 31
      → read part.val (pre ++ ((xs ++ ys) ++ post)) ≡ ok goal
  Reads-first xs ys part pre post l s =
      let e = ap (◌++◌ pre) (append_assoc xs ys post) in
      rw e (part.reads pre (ys ++ post) l (subst (λ n. length n < 2 ^ 31) e s))

module _ {V R : Type 0} {r : Result (V × Buffers)} {read : V → Buffers → Result R} {goal : R}
    (bs : Buffers) where
  Reads-second :
      (xs ys : List Bytes) (part : Reads r read goal (bs ++ frames xs) ys) (pre post : List Bytes)
      → length pre ≡ length bs
      → length (pre ++ ((xs ++ ys) ++ post)) < 2 ^ 31
      → read part.val (pre ++ ((xs ++ ys) ++ post)) ≡ ok goal
  Reads-second xs ys part pre post l s =
      let e = regroup pre xs ys post in
      rw e
        (part.reads (pre ++ xs) post (length-pre pre bs xs l) (subst (λ n. length n < 2 ^ 31) e s))

read_num : (n : ℕ) → n < 2 ^ 31 → json_get_int (json_int64 (to_int32 (pos n))) ≡ ok (pos n)
read_num n h = rw (to_int32_small n h) (ground arith)

attachment-here :
    (pre post : List Bytes) (b : Bytes)
    → length (pre ++ b ∷ post) < 2 ^ 31
    → attachment (pos (length pre)) (pre ++ b ∷ post) ≡ ptr (binary b)
unfolding attachment
attachment-here pre post b h =
    rw (to_int32_small (length (pre ++ b ∷ post)) h, get_elem?-append_right pre b post)
      (ground (arith, length-append pre (b ∷ post)))

binary-Reads :
    (b : Bytes) (bs : Buffers)
    → Reads (accept_message (binary b) bs) from_json (ptr (binary b)) bs (b ∷ [])
unfolding accept_message from_json is_place_holder json_num find_member accept_binary bytes_eq
binary-Reads b bs = record {
  val = (accept_binary b bs).0;
  accepted = refl;
  reads = λ pre post l s.
      rw (← l, read_num (length pre) (omega (arith, length-append pre (b ∷ post))))
        (ap ok (attachment-here pre post b s));
}

is_place_holder-none :
    (ms : Members) → find_member bin_place_holder ms ≡ none → is_place_holder ms ≡ ok false
unfolding is_place_holder
is_place_holder-none ms e = rw (e, is_place_holder)

find_member-skip :
    (k : Bytes) (v : Value) (ms : Members)
    → bytes_eq k bin_place_holder ≡ false
    → find_member bin_place_holder ms ≡ none
    → find_member bin_place_holder (member k v ms) ≡ none
unfolding find_member
find_member-skip k v ms e h = rw e h

-- The members of an object, for whatever map the loop starts with; none is the place holder.
abbrev ReadsFields : Fields → Buffers → Fields → Type 0
ReadsFields fs bs acc =
    (r : Reads (accept_fields fs bs) (λ ms full. from_members ms full acc) (insert_all fs acc) bs
      (binaries_fields fs))
    × (find_member bin_place_holder r.val ≡ none)

mutual
  unfolding accept_message from_json insert_all find_member

  message-Reads :
      (m : Message) (bs : Buffers)
      → WellFormed m
      → Reads (accept_message m bs) from_json (ptr m) bs (binaries m)
  message-Reads (integer v) bs w = record {
    val = json_int64 v;
    accepted = rw append-nil;
    reads = λ pre post l s. refl;
  }
  message-Reads (double v) bs w = record {
    val = json_double v;
    accepted = rw append-nil;
    reads = λ pre post l s. refl;
  }
  message-Reads (string v) bs w = record {
    val = json_string v;
    accepted = rw append-nil;
    reads = λ pre post l s. refl;
  }
  message-Reads (boolean v) bs w = record {
    val = json_bool v;
    accepted = rw append-nil;
    reads = λ pre post l s. refl;
  }
  message-Reads null bs w = record {
    val = json_null;
    accepted = rw append-nil;
    reads = λ pre post l s. refl;
  }
  message-Reads (binary b) bs w = binary-Reads b bs
  message-Reads (array ps) bs w =
      let r = items-Reads ps bs w in
      record {
        val = json_array r.val;
        accepted = rw r.accepted;
        reads = λ pre post l s. rw (r.reads pre post l s);
      }
  message-Reads (object fs) bs w =
      let (r, plain) = fields-Reads fs bs w.1 end in
      record {
        val = json_object r.val;
        accepted = rw r.accepted;
        reads = λ pre post l s.
            rw (is_place_holder-none r.val plain, r.reads pre post l s, insert_all_sorted fs w.0);
      }

  ptr-Reads :
      (p : Ptr) (bs : Buffers)
      → WellFormedPtr p
      → Reads (accept_ptr p bs) from_json p bs (binaries_ptr p)
  ptr-Reads nullptr bs w = absurd w
  ptr-Reads (ptr m) bs w = message-Reads m bs w

  items-Reads :
      (ps : Ptrs) (bs : Buffers)
      → WellFormedItems ps
      → Reads (accept_items ps bs) from_items ps bs (binaries_items ps)
  items-Reads nil bs w = record {
    val = no_values;
    accepted = rw append-nil;
    reads = λ pre post l s. refl;
  }
  items-Reads (cons p ps) bs w =
      let xs = binaries_ptr p in
      let ys = binaries_items ps in
      let first = ptr-Reads p bs w.0 in
      let second = items-Reads ps (bs ++ frames xs) w.1 in
      record {
        val = value first.val second.val;
        accepted =
            rw (first.accepted, second.accepted)
              (ap (λ c. ok (value first.val second.val, c)) (accepted-append bs xs ys));
        reads = λ pre post l s.
            rw (Reads-first bs xs ys first pre post l s, Reads-second bs xs ys second pre post l s);
      }

  fields-Reads :
      (fs : Fields) (bs : Buffers) → WellFormedFields fs → (acc : Fields) → ReadsFields fs bs acc
  fields-Reads end bs w acc =
      (record { val = no_members; accepted = rw append-nil; reads = λ pre post l s. refl }, refl)
  fields-Reads (field k p fs) bs w acc =
      let xs = binaries_ptr p in
      let ys = binaries_fields fs in
      let first = ptr-Reads p bs w.1 in
      let (second, plain) = fields-Reads fs (bs ++ frames xs) w.2 (insert k p acc) in
      (
        record {
          val = member k first.val second.val;
          accepted =
              rw (first.accepted, second.accepted)
                (ap (λ c. ok (member k first.val second.val, c)) (accepted-append bs xs ys));
          reads = λ pre post l s.
              rw
                (Reads-first bs xs ys first pre post l s, Reads-second bs xs ys second pre post l s)
                (refl);
        },
        find_member-skip k first.val second.val w.0 plain,
      )

-- A well-formed message is accepted on top of any attachments: its binaries follow them in order,
-- each behind the frame byte. Read among the attachments of any longer message (fewer than 2^31 in
-- all), each without its frame byte, the resulting value gives the message back.
pub from_json-accept_message :
    (m : Message) (before after : List Bytes)
    → WellFormed m
    → length (before ++ (binaries m ++ after)) < 2 ^ 31
    → (v : Value) × (accept_message m (frames before) ≡ ok (v, frames (before ++ binaries m)))
      × (from_json v (before ++ (binaries m ++ after)) ≡ ok (ptr m))
from_json-accept_message m before after w h =
    let r = message-Reads m (frames before) w in
    (
      r.val,
      r.accepted ∙ ap (λ c. ok (r.val, c)) (sym (frames-append before (binaries m))),
      r.reads before after (sym (length-frames before)) h,
    )
