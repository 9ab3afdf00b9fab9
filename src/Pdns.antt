-- ===== src/Pdns.antt =====
-- polaris_pdns: the PowerDNS backend. This file holds its data, and the monad of its handlers;
-- Pdns/Answers.antt the answers to queries, Pdns/Updates.antt the updates of the state, and
-- Pdns/Backend.antt the request loop.
pub mod Answers
pub mod Rotation
pub mod Queries
pub mod Refusals
pub mod Ready
pub mod Safety
pub mod Updates
pub mod Sync
pub mod Carry
pub mod Backend
pub mod Loop
pub mod Follows
pub mod Unlocated
pub mod Service
pub mod Holding
pub mod Alike
pub mod Lookups
pub mod Turned
use polaris_gslb.Prelude.{
  ℕ, ◌≡◌, refl, ap, String, Bool, true, false, Option, none, some, List, [], ◌∷◌, ◌++◌,
  if◌then◌else◌,
}
use polaris_gslb.Prelude.Result.{Exception, Result, ok, raise, or_raise}
use polaris_gslb.Topology.{TopologyMap}
use polaris_gslb.Pool.Dist.{Table}
use polaris_gslb.Published.{DistState}

-- config.BASE['SOA_SERIAL']
pub data Serial : Type 0 where
  auto : Serial
  static : ℕ → Serial

-- polaris_pdns/config: the options that the answers depend on, and TOPOLOGY_MAP
pub record Config : Type 0 where
  pub soa_mname : String
  pub soa_rname : String
  pub soa_serial : Serial
  pub soa_refresh : ℕ
  pub soa_retry : ℕ
  pub soa_expire : ℕ
  pub soa_minimum : ℕ
  pub soa_ttl : ℕ
  pub log : Bool
  pub topology_map : TopologyMap

-- the fields that the format string of a SOA record joins by spaces
pub record SoaContent : Type 0 where
  pub mname : String
  pub rname : String
  pub serial : ℕ
  pub refresh : ℕ
  pub retry : ℕ
  pub expire : ℕ
  pub minimum : ℕ

pub data Content : Type 0 where
  address : String → Content
  soa : SoaContent → Content

-- one record of a response
pub record Record : Type 0 where
  pub qtype : String
  pub qname : String
  pub content : Content
  pub ttl : ℕ

-- self.result: False, True, or a list of records
pub data Answer : Type 0 where
  refused : Answer
  accepted : Answer
  records : List Record → Answer

-- the entries of self.log, without the times in them
pub data LogEntry : Type 0 where
  initialized : LogEntry
  no_globalname : String → LogEntry
  lookup_time : LogEntry
  client_region : Option String → LogEntry
  table_used : Table → LogEntry
  cannot_parse : String → LogEntry
  not_implemented : String → LogEntry
  failed_to_execute : String → LogEntry
  request_was : String → LogEntry
  result_was : Answer → LogEntry
  process_id : LogEntry
  time_taken : LogEntry

-- The backend object, and the module's globals STATE and STATE_TS. STATE is `none` while it is
-- the empty dictionary.
pub record Server : Type 0 where
  pub result : Answer
  pub log : List LogEntry
  pub state : Option DistState
  pub state_ts : ℕ

-- A handler changes the server and may raise; what it wrote before stays written.
abbrev pub Action : Type 0 → Type 0
Action A = Server → Result A × Server

infixl 5 ◌>>=◌ ◌>>◌
abbrev pub continue : {A B : Type 0} → Result A → (A → Action B) → Action B
continue (ok a) f s = f a s
continue (raise e) f s = (raise e, s)

abbrev pub ◌>>=◌ : {A B : Type 0} → Action A → (A → Action B) → Action B
◌>>=◌ m f s = continue (m s).0 f (m s).1

abbrev pub ◌>>◌ : {B : Type 0} → Action (Unit {0}) → Action B → Action B
m >> k = m >>= λ _. k

abbrev pub lift : {A : Type 0} → Result A → Action A
lift r s = (r, s)

abbrev pub gets : {A : Type 0} → (Server → A) → Action A
gets f s = (ok (f s), s)

abbrev pub set_result : Answer → Action (Unit {0})
set_result a s = (ok tt, record s { result = a })

-- self.log.append(entry)
abbrev pub append_log : LogEntry → Action (Unit {0})
append_log entry s = (ok tt, record s { log = s.log ++ entry ∷ [] })

-- A step that returned, and a key that was found, in front of the rest of a handler.
pub bind-ok :
    {A B : Type 0} (m : Action A) (f : A → Action B) (s : Server) {a : A} {s' : Server}
    → m s ≡ (ok a, s')
    → (m >>= f) s ≡ f a s'
bind-ok m f s e = ap (λ r. continue r.0 f r.1) e

pub bind-found :
    {A B : Type 0} (o : Option A) (e : Exception) (f : A → Action B) (s : Server) {a : A}
    → o ≡ some a
    → (lift (or_raise o e) >>= f) s ≡ f a s
bind-found o e f s found = ap (λ o'. continue (or_raise o' e) f s) found

-- A branch of a handler, where the test is known.
pub branch-true :
    {A : Type 0} (b : Bool) (m n : Action A) (s : Server) → b ≡ true → (if b then m else n) s ≡ m s
branch-true true m n s h = refl
branch-true false m n s h = cc

pub branch-false :
    {A : Type 0} (b : Bool) (m n : Action A) (s : Server) → b ≡ false → (if b then m else n) s ≡ n s
branch-false true m n s h = cc
branch-false false m n s h = refl

-- RemoteBackend.add_record: the result becomes a list if it is none
unfoldable pub add_record : Record → Answer → Answer
add_record r (records rs) = records (rs ++ r ∷ [])
add_record r _ = records (r ∷ [])

-- A step that raised ends the handler.
pub bind-raise :
    {A B : Type 0} (m : Action A) (f : A → Action B) (s : Server) {e : Exception} {s' : Server}
    → m s ≡ (raise e, s')
    → (m >>= f) s ≡ (raise e, s')
bind-raise m f s e = ap (λ r. continue r.0 f r.1) e
