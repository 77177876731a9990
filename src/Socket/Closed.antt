-- ===== src/Socket/Closed.antt =====
-- A socket that has lost its client, by `on_close`, is out of use.
use taquin_client_project.Base.{
  ℕ, Bytes, Bool, true, false, Option, List, [], ◌∷◌, ◌++◌, ◌≡◌, refl, ◌∙◌,
}
use taquin_client_project.Result.{Result, ok, ◌>>=◌}
use taquin_client_project.Message.{Ptr}
use taquin_client_project.Packet.{Packet}
use taquin_client_project.Socket.{
  Socket, Event, closed, removed, on, off, off_all, on_error, off_error, emit, close, on_close,
  on_open, on_disconnect, send_connect, timeout_connection, drop_timer,
}
use taquin_client_project.Socket.Messages.{on_message_packet}

-- The methods that the client, the timer and the user call.
pub data Method : Type 0 where
  bind : Bytes → ℕ → Method
  unbind : Bytes → Method
  unbind_all unbind_error closing opening dropping disconnecting : Method
  bind_error : ℕ → Method
  emitting : Bytes → List Ptr → Option ℕ → Method
  receiving : Packet → Method
  timing_out : Bool → Method

module _ (invoke : ℕ → Event → Socket → Event × Socket) where
  abbrev pub apply : Method → Socket → Result Socket
  apply (bind name l) s = ok (on name l s)
  apply (unbind name) s = ok (off name s)
  apply unbind_all s = ok (off_all s)
  apply (bind_error l) s = ok (on_error l s)
  apply unbind_error s = ok (off_error s)
  apply (emitting name ms ack) s = emit name ms ack s
  apply closing s = ok (close s)
  apply opening s = ok (on_open s)
  apply dropping s = ok (on_close s)
  apply disconnecting s = ok (on_disconnect s)
  apply (receiving p) s = on_message_packet invoke p s
  apply (timing_out ec) s = ok (timeout_connection ec s)

  unfoldable pub apply_all : List Method → Socket → Result Socket
  apply_all [] s = ok s
  apply_all (m ∷ ms) s = apply m s >>= apply_all ms

  -- Without a client a method returns, and leaves the log, the queue and the missing client.
  record Silent (r : Result Socket) (s : Socket) : Type 0 where
    after : Socket
    returns : r ≡ ok after
    gone : after.attached ≡ false
    same_log : after.log ≡ s.log
    same_queue : after.queue ≡ s.queue

  Silent-same : (r : Result Socket) (s : Socket) → s.attached ≡ false → r ≡ ok s → Silent r s
  Silent-same r s a e = record {
    after = s;
    returns = e;
    gone = a;
    same_log = refl;
    same_queue = refl;
  }

  Silent-changed :
      (t s : Socket) → t.attached ≡ false → t.log ≡ s.log → t.queue ≡ s.queue → Silent (ok t) s
  Silent-changed t s a l q = record {
    after = t;
    returns = refl;
    gone = a;
    same_log = l;
    same_queue = q;
  }

  apply-Silent : (m : Method) (s : Socket) → s.attached ≡ false → Silent (apply m s) s
  unfolding on off off_all on_error off_error emit close on_open send_connect on_close on_disconnect
      on_message_packet timeout_connection
  apply-Silent (bind name l) s a = Silent-changed (on name l s) s a refl refl
  apply-Silent (unbind name) s a = Silent-changed (off name s) s a refl refl
  apply-Silent unbind_all s a = Silent-changed (off_all s) s a refl refl
  apply-Silent (bind_error l) s a = Silent-changed (on_error l s) s a refl refl
  apply-Silent unbind_error s a = Silent-changed (off_error s) s a refl refl
  apply-Silent _ s a = Silent-same _ s a (simp a)

  apply_all-Silent :
      (ms : List Method) (s : Socket) → s.attached ≡ false → Silent (apply_all ms s) s
  unfolding apply_all
  apply_all-Silent [] s a = Silent-same _ s a refl
  apply_all-Silent (m ∷ ms) s a =
      let one = apply-Silent m s a in
      let rest = apply_all-Silent ms one.after one.gone in
      record {
        after = rest.after;
        returns = rw one.returns rest.returns;
        gone = rest.gone;
        same_log = rest.same_log ∙ one.same_log;
        same_queue = rest.same_queue ∙ one.same_queue;
      }

  on_close_lem :
      (s : Socket)
      → s.attached ≡ true
      → ((on_close s).attached ≡ false)
        × ((on_close s).queue ≡ [])
        × ((on_close s).log ≡ (drop_timer s).log ++ closed s.nsp ∷ removed s.nsp ∷ [])
  unfolding on_close
  on_close_lem s a = simp a (refl, refl, refl)

  -- Closing an attached socket cancels its timer if there is one, then tells the client that it is
  -- closed and has it removed, in this order, and empties the queue. Whatever methods are called
  -- afterwards, with whatever packets, all return: nothing is sent or added to the log, nothing waits,
  -- and the client stays missing.
  pub on_close_final :
      (s : Socket) (ms : List Method)
      → s.attached ≡ true
      → (t : Socket) × (apply_all ms (on_close s) ≡ ok t)
        × (t.attached ≡ false)
        × (t.queue ≡ [])
        × (t.log ≡ (drop_timer s).log ++ closed s.nsp ∷ removed s.nsp ∷ [])
  on_close_final s ms a =
      let (gone, queue, log) = on_close_lem s a in
      let r = apply_all-Silent ms (on_close s) gone in
      (r.after, r.returns, r.gone, r.same_queue ∙ queue, r.same_log ∙ log)
