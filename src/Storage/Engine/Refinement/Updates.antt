-- ===== src/Storage/Engine/Refinement/Updates.antt =====
-- The commands that change a key change the abstract keyspace at that key alone, as Redis has it.
use ferrum_kv.Prelude.{
  ℕ, ◌≡◌, refl, ap, ◌∙◌, Option, none, some, [], ◌∷◌, arith, Bytes, length, bytes_eq, if◌then◌else◌,
}
use ferrum_kv.Error.{ok, ◌>>◌}
use ferrum_kv.Storage.Assoc.{get, remove, Distinct}
use ferrum_kv.Storage.Assoc
use ferrum_kv.Storage.Entry.{ValueEntry, Clock, new, new_with, is_expired, live_payload}
use ferrum_kv.Storage.Engine.{Host, KvEngine}
use ferrum_kv.Storage.Engine.Track.{track_insert, track_remove}
use ferrum_kv.Storage.Engine.Evict.{enforce_for_write, enforce_memory_limit}
use ferrum_kv.Storage.Engine.Guard.{
  WriteGuard, begin, put, take_out, make_room, validate_key, validate_value, set_record, del_record,
  live_of,
}
use ferrum_kv.Storage.Engine.Guard.Writes
use ferrum_kv.Storage.Engine.Guard.Writes.{remove_key, is_live}
use ferrum_kv.Storage.Engine.Commands.{set, del}
use ferrum_kv.Storage.Engine.Behaviour.{release_store, log_store}
use ferrum_kv.Storage.Engine.Refinement.{seen_at, view, view-insert, view-remove}
use ferrum_kv.Storage.Engine.Refinement.Lookup.{value_of, is_some}

live_of_seen : (o : Option ValueEntry) (now : ℕ) → live_of o now ≡ value_of (seen_at o now)
unfolding live_payload
live_of_seen none now = refl
live_of_seen (some e) now = ground arith

is_live_seen : (o : Option ValueEntry) (now : ℕ) → is_live o now ≡ is_some (seen_at o now)
is_live_seen none now = refl
is_live_seen (some e) now = ground arith

module _ {h : Host} where
  -- Without a limit there is always room.
  pub make_room_free :
      (g : WriteGuard h) (k : Bytes) (n : ℕ)
      → g.engine.eviction.max_memory ≡ 0
      → ((make_room g k n).0.engine.store ≡ g.engine.store) × ((make_room g k n).1 ≡ ok tt)
  unfolding make_room enforce_for_write enforce_memory_limit
  make_room_free g k n z =
      (rw (make_room, enforce_memory_limit, z) refl, rw (make_room, enforce_memory_limit, z) refl)

  pub insert_free :
      (g : WriteGuard h) (k v : Bytes)
      → g.engine.eviction.max_memory ≡ 0
      → (validate_key k >> validate_value v) ≡ ok tt
      → ((Writes.insert g k v).0.engine.store ≡ Assoc.insert k (new g.clock v) g.engine.store)
        × ((Writes.insert g k v).1 ≡ ok (live_of (get k g.engine.store) g.clock.now))
  unfolding Writes.insert put track_insert
  insert_free g k v z valid =
      let room = make_room_free g k (length v) z in
      let f = log_store (make_room g k (length v)).0 (set_record k v ∷ []) in
      (
        rw (Writes.insert, valid, room.1, f, room.0) refl,
        rw (Writes.insert, valid, room.1, f, room.0) refl,
      )

  -- Without a memory limit, a `SET` of a valid key and value answers the value that the abstract
  -- keyspace had for the key, puts the new value there without a deadline, and changes no other key.
  pub set-view :
      (c : Clock) (e : KvEngine h) (k v j : Bytes)
      → e.eviction.max_memory ≡ 0
      → (validate_key k >> validate_value v) ≡ ok tt
      → ((set c e k v).1 ≡ ok (value_of (view e.store c.now k)))
        × (view (set c e k v).0.store c.now j
            ≡ (if bytes_eq k j then some (v, none) else view e.store c.now j))
  unfolding set begin new new_with is_expired
  set-view c e k v j z valid =
      let f = insert_free (begin e c) k v z valid in
      let s = release_store (Writes.insert (begin e c) k v).0 ∙ f.0 in
      (
        f.1 ∙ ap ok (live_of_seen (get k e.store) c.now),
        ap (λ m. view m c.now j) s ∙ view-insert e.store c.now k j (new c v),
      )

  remove_key_store :
      (g : WriteGuard h) (k : Bytes)
      → ((remove_key g k).0.engine.store ≡ remove k g.engine.store)
        × ((remove_key g k).1 ≡ is_live (get k g.engine.store) g.clock.now)
  unfolding remove_key take_out track_remove
  remove_key_store g k =
      let f = log_store (take_out g k).0 (del_record k ∷ []) in (ground (arith, f), refl)

  -- `DEL` tells whether the abstract keyspace had the key, removes it, and changes no other key. No key
  -- stands twice.
  pub del-view :
      (c : Clock) (e : KvEngine h) (k j : Bytes)
      → Distinct e.store
      → ((del c e k).1 ≡ is_some (view e.store c.now k))
        × (view (del c e k).0.store c.now j ≡ (if bytes_eq k j then none else view e.store c.now j))
  unfolding del begin
  del-view c e k j d =
      let f = remove_key_store (begin e c) k in
      let s = release_store (remove_key (begin e c) k).0 ∙ f.0 in
      (
        f.1 ∙ is_live_seen (get k e.store) c.now,
        ap (λ m. view m c.now j) s ∙ view-remove e.store c.now k j d,
      )
