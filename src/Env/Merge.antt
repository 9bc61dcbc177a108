-- ===== src/Env/Merge.antt =====
-- Which entry wins when environments are merged or turned into a payload.
use oz_agent_worker.Prelude.{
  true, if◌then◌else◌, is_some, Option, none, some, List, [], ◌∷◌, ◌==◌, ◌≡◌, refl, sym, subst,
  arith, map, contains, contains-append, contains-singleton, IsDistinct, snoc-IsDistinct, beq_refl,
}
use oz_agent_worker.Assoc.{Map, lookup, insert, lookup-insert}
use oz_agent_worker.Env.{
  Bytes, bytes_beq_iff, bytes_eq, cut, Merged, merge_entry, merge_entries, entry_at, result_of,
  merge_env_vars, payload_env,
}

abbrev pub or_else : Option Bytes → Option Bytes → Option Bytes
or_else none o = o
or_else (some e) o = some e

-- The last entry of a key.
unfoldable pub last_entry : Bytes → List Bytes → Option Bytes
last_entry k [] = none
last_entry k (e ∷ es) = or_else (last_entry k es) (if (cut e).0 == k then some e else none)

-- Every entry stands under its own key, once, and the keys are those of the map.
record IsMerged (s : Merged) : Type 0 where
  own : (k e : Bytes) → lookup k s.env_map ≡ some e → (cut e).0 ≡ k
  known : (k : Bytes) → contains s.keys k ≡ is_some (lookup k s.env_map)
  distinct : IsDistinct s.keys

merge_entry-lookup :
    (e k : Bytes) (s : Merged)
    → lookup k (merge_entry e s).env_map ≡ (if (cut e).0 == k then some e else lookup k s.env_map)
unfolding merge_entry
merge_entry-lookup e k s = lookup-insert (cut e).0 k e s.env_map

merge_entry-known :
    (e k : Bytes) (s : Merged)
    → IsMerged s
    → contains (merge_entry e s).keys k ≡ is_some (lookup k (merge_entry e s).env_map)
unfolding merge_entry
merge_entry-known e k s v = ground (
  arith,
  lookup-insert (cut e).0 k e s.env_map,
  contains-append s.keys ((cut e).0 ∷ []) k,
  contains-singleton (cut e).0 k,
  bytes_beq_iff (cut e).0 k,
  v.known k,
)

merge_entry-IsDistinct : (e : Bytes) (s : Merged) → IsMerged s → IsDistinct (merge_entry e s).keys
unfolding merge_entry
merge_entry-IsDistinct e s v =
    ground (arith, v.distinct, v.known (cut e).0, snoc-IsDistinct s.keys (cut e).0)

merge_entry-IsMerged : (e : Bytes) (s : Merged) → IsMerged s → IsMerged (merge_entry e s)
merge_entry-IsMerged e s v = record {
  own = λ k x h. ground (arith, merge_entry-lookup e k s, bytes_beq_iff (cut e).0 k, v.own k x);
  known = λ k. merge_entry-known e k s v;
  distinct = merge_entry-IsDistinct e s v;
}

merge_entries-IsMerged : (es : List Bytes) (s : Merged) → IsMerged s → IsMerged (merge_entries es s)
unfolding merge_entries
merge_entries-IsMerged [] s v = v
merge_entries-IsMerged (e ∷ es) s v =
    merge_entries-IsMerged es (merge_entry e s) (merge_entry-IsMerged e s v)

merge_entries-lookup :
    (es : List Bytes) (k : Bytes) (s : Merged)
    → lookup k (merge_entries es s).env_map ≡ or_else (last_entry k es) (lookup k s.env_map)
unfolding merge_entries last_entry
merge_entries-lookup [] k s = refl
merge_entries-lookup (e ∷ es) k s =
    ground (arith, merge_entries-lookup es k (merge_entry e s), merge_entry-lookup e k s)

-- The keys all have an entry, which is theirs.
Filled : Map Bytes Bytes → List Bytes → Type 0
Filled m keys =
    (k : Bytes)
    → contains keys k ≡ true
    → (lookup k m ≡ some (entry_at m k)) × ((cut (entry_at m k)).0 ≡ k)

Filled-tail :
    (m : Map Bytes Bytes) (key : Bytes) (keys : List Bytes) → Filled m (key ∷ keys) → Filled m keys
unfolding Filled contains
Filled-tail m key keys f k h = f k (ground arith)

result-last :
    (m : Map Bytes Bytes) (keys : List Bytes) (k : Bytes)
    → IsDistinct keys
    → Filled m keys
    → last_entry k (result_of m keys) ≡ (if contains keys k then lookup k m else none)
unfolding result_of last_entry contains Filled
result-last m [] k d f = refl
result-last m (key ∷ keys) k d f = ground (
  arith,
  d,
  f key (ground (arith, beq_refl key)),
  bytes_beq_iff key k,
  result-last m keys k d.1 (Filled-tail m key keys f),
)

Merged-Filled : (s : Merged) → IsMerged s → Filled s.env_map s.keys
unfolding Filled entry_at
Merged-Filled s v k h = ground (arith, v.known k, v.own k (entry_at s.env_map k))

abbrev pub keys_of : List Bytes → List Bytes
keys_of es = map (λ e. (cut e).0) es

result-keys :
    (m : Map Bytes Bytes) (keys : List Bytes) → Filled m keys → keys_of (result_of m keys) ≡ keys
unfolding result_of Filled contains
result-keys m [] f = refl
result-keys m (key ∷ keys) f =
    ground
      (arith, f key (ground (arith, beq_refl key)), result-keys m keys (Filled-tail m key keys f))

merged_of : List Bytes → List Bytes → Merged
merged_of base override =
    merge_entries override (merge_entries base (record { env_map = []; keys = [] }))

combined-IsMerged : (base override : List Bytes) → IsMerged (merged_of base override)
unfolding merged_of lookup contains
combined-IsMerged base override =
    merge_entries-IsMerged override (merge_entries base (record { env_map = []; keys = [] })) (
      merge_entries-IsMerged base (record { env_map = []; keys = [] })
        (record { own = λ k e h. cc; known = λ k. refl; distinct = tt }))

merged-lookup :
    (base override : List Bytes) (k : Bytes)
    → lookup k (merged_of base override).env_map
      ≡ or_else (last_entry k override) (last_entry k base)
unfolding merged_of lookup
merged-lookup base override k =
    let s : Merged = record { env_map = []; keys = [] } in
    ground
      (arith, merge_entries-lookup override k (merge_entries base s), merge_entries-lookup base k s)

abbrev pub value_at : Option Bytes → Option Bytes → Option Bytes
value_at none o = o
value_at (some e) o = some (cut e).1

payload-lookup :
    (es : List Bytes) (k : Bytes) (env : Map Bytes Bytes)
    → lookup k (payload_env es env) ≡ value_at (last_entry k es) (lookup k env)
unfolding payload_env last_entry
payload-lookup [] k env = refl
payload-lookup (e ∷ es) k env = ground (
  arith,
  payload-lookup es k (insert (cut e).0 (cut e).1 env),
  lookup-insert (cut e).0 k (cut e).1 env,
)

-- In the merge of two environments no key has two entries, the entry of each key is the last of the
-- override's entries for it, or without one the last of the base's, and a dispatch payload made of
-- the merge maps the key to what follows the first `=` of that entry, and to nothing when neither
-- environment has one.
pub merge_overrides :
    (base override : List Bytes) (k : Bytes)
    → let winner = or_else (last_entry k override) (last_entry k base) in
      IsDistinct (keys_of (merge_env_vars base override))
      × (last_entry k (merge_env_vars base override) ≡ winner)
      × (lookup k (payload_env (merge_env_vars base override) []) ≡ value_at winner none)
unfolding merge_env_vars merged_of lookup
merge_overrides base override k =
    let s = merged_of base override in
    let v = combined-IsMerged base override in
    let f = Merged-Filled s v in
    let last = result-last s.env_map s.keys k v.distinct f in
    (
      subst (λ keys. IsDistinct keys) (sym (result-keys s.env_map s.keys f)) v.distinct,
      ground (arith, last, v.known k, merged-lookup base override k),
      ground (
        arith,
        payload-lookup (result_of s.env_map s.keys) k [],
        last,
        v.known k,
        merged-lookup base override k,
      ),
    )
