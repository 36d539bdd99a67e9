-- ===== src/Cluster/Event.antt =====
-- gateway/cluster/events.py: the events that replicas send to one another. The class of the load
-- event is in Load/Fleet. A digest's `entries` are the entries of a last-writer-wins map.
use llm_inference.Base.{ℕ, Bool, List}
use llm_inference.Base.Text.{Text, text}
use llm_inference.Load.Fleet.{LoadEvent}
use llm_inference.Lww.Join.{Op}
use llm_inference.Lww.Members.{Member}

abbrev pub insert_kind : Text
insert_kind = text "insert"

abbrev pub remove_kind : Text
remove_kind = text "remove_backend"

abbrev pub member_add : Text
member_add = text "member_add"

abbrev pub member_remove : Text
member_remove = text "member_remove"

pub record PrefixEvent : Type 0 where
  pub kind : Text
  pub backend_id : Text
  pub origin : Text
  pub seq : ℕ
  pub hashes : List ℕ

pub record DrainEvent : Type 0 where
  pub origin : Text
  pub seq : ℕ
  pub ts : ℕ
  pub backend_id : Text
  pub draining : Bool

pub record DrainDigest : Type 0 where
  pub origin : Text
  pub seq : ℕ
  pub entries : List (Op Bool)

pub record MemberEvent : Type 0 where
  pub origin : Text
  pub seq : ℕ
  pub action : Text
  pub backend_id : Text
  pub url : Text
  pub model : Text
  pub ts : ℕ

pub record MembershipDigest : Type 0 where
  pub origin : Text
  pub seq : ℕ
  pub entries : List (Op Member)

-- An event of any of the classes.
pub data ClusterEvent : Type 0 where
  prefix_event : PrefixEvent → ClusterEvent
  load_event : LoadEvent → ClusterEvent
  drain_event : DrainEvent → ClusterEvent
  drain_digest : DrainDigest → ClusterEvent
  member_event : MemberEvent → ClusterEvent
  member_digest : MembershipDigest → ClusterEvent

unfoldable pub origin_of : ClusterEvent → Text
origin_of (prefix_event e) = e.origin
origin_of (load_event e) = e.origin
origin_of (drain_event e) = e.origin
origin_of (drain_digest e) = e.origin
origin_of (member_event e) = e.origin
origin_of (member_digest e) = e.origin

unfoldable pub seq_of : ClusterEvent → ℕ
seq_of (prefix_event e) = e.seq
seq_of (load_event e) = e.seq
seq_of (drain_event e) = e.seq
seq_of (drain_digest e) = e.seq
seq_of (member_event e) = e.seq
seq_of (member_digest e) = e.seq
