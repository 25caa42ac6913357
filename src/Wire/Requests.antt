-- ===== src/Wire/Requests.antt =====
-- Requests and their replies. A caller of `sendRequest` has a channel of its own with room for one message; it
-- is known by the place of its call in the order in which the calls draw their identifiers.
pub mod Correlation
pub mod Answered
use iscp_go.Prelude.{
  ℕ, zero, suc, ◌+◌, List, [], ◌∷◌, Option, none, some, ◌==◌, nat_eq, if◌then◌else◌, Map, lookup,
  insert, erase,
}
use iscp_go.Ids.{IdGenerator, next_id, new_request_id_generator_for_client}

-- `idGenerator`, `replyCh`, the number of calls so far, and what the channels were sent: caller and the request
-- identifier of the reply.
pub record Requests : Type 0 where
  pub id_generator : IdGenerator
  pub reply_ch : Map ℕ ℕ
  pub calls : ℕ
  pub delivered : List (ℕ × ℕ)

-- The state before `Connect` draws the first identifier, that of its ConnectRequest.
unfoldable pub new_requests : Requests
unfolding new_request_id_generator_for_client
new_requests = record {
  id_generator = new_request_id_generator_for_client;
  reply_ch = [];
  calls = 0;
  delivered = [];
}

-- A call draws its identifier and enters its channel. What it then waits for, the reply, its own context or the
-- end of the connection, leaves the table as it is, and so does an error of the write.
unfoldable pub send_request : Requests → Requests
send_request r =
    let (g, id) = next_id r.id_generator in
    record r { id_generator = g; reply_ch = insert id r.calls r.reply_ch; calls = suc r.calls }

unfoldable pub reply_to : Option ℕ → Requests → ℕ → Requests
reply_to none r request_id = r
reply_to (some caller) r request_id = record r {
  reply_ch = erase request_id r.reply_ch;
  delivered = (caller, request_id) ∷ r.delivered;
}

-- One round of `readRequestLoop`.
unfoldable pub read_request : Requests → ℕ → Requests
unfolding reply_to
read_request r request_id = reply_to (lookup request_id r.reply_ch) r request_id

pub data Event : Type 0 where
  sends : Event
  reply : ℕ → Event

abbrev pub happens : Requests → Event → Requests
happens r sends = send_request r
happens r (reply request_id) = read_request r request_id

unfoldable pub run : Requests → List Event → Requests
run r [] = r
run r (e ∷ es) = run (happens r e) es
