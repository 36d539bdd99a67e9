-- ===== src/Cluster/Codec.antt =====
-- gateway/cluster/events.py: `to_json`, `from_json` and `decode_event`, up to the text that `json`
-- makes of a value. The entries of a digest are the arrays of `digest` and `merge` in drain_state.py
-- and membership_state.py; a digest with an entry that is not such an array is refused here, while the
-- source accepts it, and its `merge` raises in the sync.
use llm_inference.Base.{Bool, false, ◌||◌, Option, none, some, [], ◌==◌, if◌then◌else◌}
use llm_inference.Base.Text.{Text, text_eq, text}
use llm_inference.Lww.Version.{Version}
use llm_inference.Lww.Members.{Member}
use llm_inference.Cluster.Event.{
  ClusterEvent, prefix_event, load_event, drain_event, drain_digest, member_event, member_digest,
  member_add, member_remove,
}
use llm_inference.Cluster.Json.{
  Json, Fields, bool, num, str, arr, obj, nil, item, end, field, ◌>>=◌, find, as_obj, as_text,
  as_num, truthy, read, read_text, read_num, read_text_or, read_num_or, as_items, as_fields,
  put_items, take_items, put_fields, take_fields,
}

abbrev pub load_kind : Text
load_kind = text "load"

abbrev pub drain_kind : Text
drain_kind = text "drainop"

abbrev pub drain_digest_kind : Text
drain_digest_kind = text "draindigest"

abbrev pub member_digest_kind : Text
member_digest_kind = text "member_digest"

-- `[draining, ts, origin]`
abbrev pub put_flag : Version Bool → Json
put_flag v = arr (item (bool v.value) (item (num v.ts) (item (str v.origin) nil)))

abbrev pub take_flag : Json → Option (Version Bool)
take_flag (arr (item d (item t (item o rest)))) = as_num t >>= λ ts.
    as_text o >>= λ origin. some (record { value = truthy d; ts = ts; origin = origin })
take_flag v = none

-- `[present, url, model, ts, origin]`
abbrev pub put_member : Version Member → Json
put_member v = arr (
    item (bool v.value.present) (
      item (str v.value.url)
        (item (str v.value.model) (item (num v.ts) (item (str v.origin) nil)))))

abbrev pub take_member : Json → Option (Version Member)
take_member (arr (item p (item u (item m (item t (item o rest)))))) = as_text u >>= λ url.
    as_text m >>= λ model. as_num t >>= λ ts. as_text o >>= λ origin. some (record {
      value = record { present = truthy p; url = url; model = model };
      ts = ts;
      origin = origin;
    })
take_member v = none

-- The object that `to_json` gives to `json.dumps`.
unfoldable pub to_json : ClusterEvent → Json
to_json (prefix_event e) = obj (
    field (text "k") (str e.kind) (
      field (text "b") (str e.backend_id) (
        field (text "o") (str e.origin)
          (field (text "s") (num e.seq) (field (text "h") (arr (put_items num e.hashes)) end)))))
to_json (load_event e) = obj (
    field (text "k") (str load_kind) (
      field (text "o") (str e.origin) (
        field (text "s") (num e.seq) (
          field (text "l") (obj (put_fields num e.inflight))
            (field (text "u") (arr (put_items str e.unhealthy)) end)))))
to_json (drain_event e) = obj (
    field (text "k") (str drain_kind) (
      field (text "o") (str e.origin) (
        field (text "s") (num e.seq) (
          field (text "t") (num e.ts) (
            field (text "b") (str e.backend_id)
              (field (text "d") (num (if e.draining then 1 else 0)) end))))))
to_json (drain_digest e) = obj (
    field (text "k") (str drain_digest_kind) (
      field (text "o") (str e.origin) (
        field (text "s") (num e.seq) (field (text "e") (obj (put_fields put_flag e.entries)) end))))
to_json (member_event e) = obj (
    field (text "k") (str e.action) (
      field (text "o") (str e.origin) (
        field (text "s") (num e.seq) (
          field (text "b") (str e.backend_id) (
            field (text "u") (str e.url)
              (field (text "m") (str e.model) (field (text "t") (num e.ts) end)))))))
to_json (member_digest e) = obj (
    field (text "k") (str member_digest_kind) (
      field (text "o") (str e.origin) (
        field (text "s") (num e.seq)
          (field (text "e") (obj (put_fields put_member e.entries)) end))))

-- `from_json` of each class, over the fields of the object that `json.loads` gives.
unfoldable pub prefix_of : Fields → Option ClusterEvent
prefix_of d = do
  kind ← read_text (text "k") d
  backend_id ← read_text (text "b") d
  origin ← read_text (text "o") d
  seq ← read_num (text "s") d
  items ← as_items (find (text "h") d)
  hashes ← take_items as_num items
  some (
      prefix_event (record {
        kind = kind;
        backend_id = backend_id;
        origin = origin;
        seq = seq;
        hashes = hashes;
      }))

unfoldable pub load_of : Fields → Option ClusterEvent
load_of d = do
  origin ← read_text (text "o") d
  seq ← read_num (text "s") d
  fields ← as_fields (find (text "l") d)
  inflight ← take_fields as_num fields
  items ← as_items (find (text "u") d)
  unhealthy ← take_items as_text items
  some (
      load_event
        (record { origin = origin; seq = seq; inflight = inflight; unhealthy = unhealthy }))

unfoldable pub drain_of : Fields → Option ClusterEvent
drain_of d = do
  origin ← read_text (text "o") d
  seq ← read_num (text "s") d
  ts ← read_num (text "t") d
  backend_id ← read_text (text "b") d
  draining ← read (text "d") d
  some (
      drain_event (record {
        origin = origin;
        seq = seq;
        ts = ts;
        backend_id = backend_id;
        draining = truthy draining;
      }))

unfoldable pub drain_digest_of : Fields → Option ClusterEvent
drain_digest_of d = do
  origin ← read_text (text "o") d
  seq ← read_num (text "s") d
  fields ← as_fields (find (text "e") d)
  entries ← take_fields take_flag fields
  some (drain_digest (record { origin = origin; seq = seq; entries = entries }))

unfoldable pub member_of : Fields → Option ClusterEvent
member_of d = do
  origin ← read_text (text "o") d
  seq ← read_num (text "s") d
  action ← read_text (text "k") d
  backend_id ← read_text (text "b") d
  url ← read_text_or (text "u") [] d
  model ← read_text_or (text "m") [] d
  ts ← read_num_or (text "t") 0 d
  some (
      member_event (record {
        origin = origin;
        seq = seq;
        action = action;
        backend_id = backend_id;
        url = url;
        model = model;
        ts = ts;
      }))

unfoldable pub member_digest_of : Fields → Option ClusterEvent
member_digest_of d = do
  origin ← read_text (text "o") d
  seq ← read_num (text "s") d
  fields ← as_fields (find (text "e") d)
  entries ← take_fields take_member fields
  some (member_digest (record { origin = origin; seq = seq; entries = entries }))

-- `kind == …`, where the value under "k" may be absent or of any type
abbrev pub is_kind : Text → Option Json → Bool
is_kind k (some (str s)) = s == k
is_kind k v = false

unfoldable pub decode_event : Json → Option ClusterEvent
unfolding prefix_of load_of drain_of drain_digest_of member_of member_digest_of
decode_event raw = do
  d ← as_obj raw
  let kind = find (text "k") d
  if is_kind load_kind kind
      then load_of d
      else if is_kind drain_kind kind
      then drain_of d
      else if is_kind drain_digest_kind kind
      then drain_digest_of d
      else if is_kind member_add kind || is_kind member_remove kind
      then member_of d
      else if is_kind member_digest_kind kind
      then member_digest_of d
      else prefix_of d
