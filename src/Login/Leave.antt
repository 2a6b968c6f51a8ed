-- ===== src/Login/Leave.antt =====
-- What a client's thread leaves behind.
use cipher_chat.Prelude.{
  ℕ, ◌<◌, ◌≡◌, refl, sym, ap, ◌∙◌, ◌≢◌, true, false, none, some, List, [], ◌∷◌, arith,
}
use cipher_chat.Prelude.Table.{count}
use cipher_chat.Status.{Result}
use cipher_chat.Registry
use cipher_chat.Registry.{
  Os, Registry, Connection, max_clients, client_at, has_id, invalid_client_id,
}
use cipher_chat.Registry.Invariant
use cipher_chat.Registry.Preserve.{remove_client-IsValid}
use cipher_chat.Registry.Ids.{queue_frame-count, remove_client-count}
use cipher_chat.FileRoutes.{FileRoute}
use cipher_chat.FileRoutes.Slots.{view}
use cipher_chat.FileRoutes.Abort.{departed-target, departed-sender}
use cipher_chat.ServerFiles.{Server, abort_file_routes_for_client}
use cipher_chat.ServerFiles.Invariant.{IsServer}
use cipher_chat.ServerFiles.Departure.{Notice, notices, tell, abort_file_routes_for_client-Departed}
use cipher_chat.Worker.{Worker, returns}
use cipher_chat.Login.{served, Peer, remove, leave}

tell-count :
    (os : Os) (k : ℕ) (ns : List Notice) (r : Registry)
    → count (has_id k) (tell os r ns).clients ≡ count (has_id k) r.clients
unfolding tell
tell-count os k [] r = refl
tell-count os k ((id, type, payload) ∷ ns) r =
    tell-count os k ns (Registry.queue_frame os r id type payload).1
    ∙ queue_frame-count os r id type payload k

-- The client with this id has logged in and stands in this slot.
pub record IsThere (index client_id : ℕ) (s : Server) : Type 0 where
  pub tables : IsServer s
  pub inside : index < max_clients
  pub holds : has_id client_id (client_at s.registry.clients index) ≡ true

-- No client has the id, and it will not be given again.
pub record IsGone (client_id : ℕ) (s : Server) : Type 0 where
  pub tables : IsServer s
  pub given : client_id ≢ invalid_client_id
  pub old : client_id < s.registry.next_client_id
  pub nobody : count (has_id client_id) s.registry.clients ≡ 0

-- No client has the id, no transfer is of it, and none goes to it.
pub record HasLeft (client_id : ℕ) (s : Server) : Type 0 where
  pub tables : IsServer s
  pub nobody : count (has_id client_id) s.registry.clients ≡ 0
  pub sends_nothing : (x : ℕ) → view s.routes.routes client_id x ≡ none
  pub receives_nothing :
      (a x : ℕ) {r : FileRoute}
      → view s.routes.routes a x ≡ some r
      → r.discard ≡ false
      → r.target_id ≢ client_id

abort-HasLeft :
    (os : Os) (client_id : ℕ) {s : Server}
    → IsGone client_id s
    → HasLeft client_id (abort_file_routes_for_client os s client_id)
abort-HasLeft os client_id {s} gone =
    let (tables, entries, told) =
      abort_file_routes_for_client-Departed os client_id gone.given gone.tables in
    record {
      tables = tables;
      nobody =
          ap (λ (r : Registry). count (has_id client_id) r.clients) told
          ∙ (tell-count os client_id (notices client_id s.routes.routes) s.registry ∙ gone.nobody);
      sends_nothing = λ x. entries client_id x ∙ departed-sender client_id x s.routes.routes;
      receives_nothing = λ a x {r} e d.
          departed-target client_id (view s.routes.routes a x) {r = r} (sym (entries a x) ∙ e) d;
    }

remove-IsGone :
    (os : Os) (peer : Peer) (index client_id : ℕ) {s : Server}
    → IsThere index client_id s
    → IsGone client_id (remove os peer s index)
unfolding has_id Registry.remove_client
remove-IsGone os peer index client_id {s} there =
    let v = there.tables.registry in
    let slot =
      Invariant.Clients-at s.registry.next_client_id s.registry.clients index
        (omega (arith, v.slots, there.inside)) v.each in
    let active : (client_at s.registry.clients index).active ≡ true = ground (arith, there.holds) in
    record {
      tables = record { registry = remove_client-IsValid v index; routes = there.tables.routes };
      given = λ z. slot.0.id_given active (ground arith);
      old = ground (arith, slot.1 active);
      nobody = remove_client-count index client_id v there.inside there.holds;
    }

-- When the worker has returned with the client in its slot of valid tables, and if other threads leave it there until
-- it is removed, and from then on keep the tables valid and do not give its id again: the thread ends with what
-- the worker returned, the tables are valid, no client has the id, no transfer is of it, and none that
-- forwards goes to it.
pub leave-HasLeft :
    (os : Os) (peer : Peer) (index client_id : ℕ) (result : Result (Unit {0})) (w : Worker)
    {s : Server}
    → ((t : Server) → IsThere index client_id t → IsThere index client_id (peer.before_remove t))
    → ((t : Server) → IsGone client_id t → IsGone client_id (peer.before_abort t))
    → IsThere index client_id s
    → let (end, after) = leave os peer index client_id (returns result w s) in
      (end ≡ served result) × HasLeft client_id after
unfolding leave
leave-HasLeft os peer index client_id result w {s} stays free there =
    let removed = remove-IsGone os peer index client_id (stays s there) in
    (refl, abort-HasLeft os client_id (free (remove os peer (peer.before_remove s) index) removed))
