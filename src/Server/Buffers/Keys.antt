-- ===== src/Server/Buffers/Keys.antt =====
-- The keys of the server's map of buffers, and buffers without activity (src/server.cpp).
use zway_server.Base.{
  ℕ, suc, ◌≤◌, ◌<◌, ◌≡◌, refl, Bool, List, [], ◌∷◌, Option, none, some, arith, ltb, ltb→lt, ◌==◌,
  ==_self, if_cases,
}
use zway_server.OrderedMap.{OrderedMap, lookup, assign, erase, lookup-assign}
use zway_server.Server.Buffers.{
  add_stream_buffer, add_if_free, remove_stream_buffer, remove_if_there, is_stale, stale_ids,
  erase_all, drop_stale, Streams, on_timer,
}
use zway_server.Server.Buffers.Ageing.{Keyed, on_timer_lem}
use zway_server.Stream.StreamBuffer.{StreamBuffer, u64}

module _ {M : Type 0} where
  Keyed-mono : {i j : ℕ} (m : OrderedMap (StreamBuffer M)) → i ≤ j → Keyed j m → Keyed i m
  Keyed-mono [] h k = tt
  Keyed-mono ((x, b) ∷ m) h k = (omega arith, k.1, k.2)

  Keyed-assign :
      (n k : ℕ) (b : StreamBuffer M) (m : OrderedMap (StreamBuffer M))
      → n ≤ k
      → b.stream_id ≡ k
      → Keyed n m
      → Keyed n (assign k b m)
  unfolding assign
  Keyed-assign n k b [] h e t = (h, e, tt)
  Keyed-assign n k b ((j, c) ∷ m) h e t =
      if_cases (Keyed n) (j == k)
        (λ same. (h, e, Keyed-mono {i = suc k} {j = suc j} m (ground arith) t.2))
        λ other.
          if_cases (Keyed n) (ltb k j) (λ less. (h, e, (ltb→lt k j less, t.1, t.2)))
            λ more. (t.0, t.1, Keyed-assign (suc j) k b m (ground arith) e t.2)

  Keyed-erase : (n k : ℕ) (m : OrderedMap (StreamBuffer M)) → Keyed n m → Keyed n (erase k m)
  unfolding erase
  Keyed-erase n k [] t = tt
  Keyed-erase n k ((j, c) ∷ m) t =
      if_cases (Keyed n) (j == k)
        (λ same.
          Keyed-mono {i = n} {j = suc j} (erase k m) (omega arith) (Keyed-erase (suc j) k m t.2))
        λ other. (t.0, t.1, Keyed-erase (suc j) k m t.2)

  Keyed-erase_all :
      (ids : List ℕ) (m : OrderedMap (StreamBuffer M)) → Keyed 0 m → Keyed 0 (erase_all ids m)
  unfolding erase_all
  Keyed-erase_all [] m t = t
  Keyed-erase_all (id ∷ ids) m t = Keyed-erase_all ids (erase id m) (Keyed-erase 0 id m t)

  add_stream_buffer-Keyed :
      (b : StreamBuffer M) (m : OrderedMap (StreamBuffer M))
      → Keyed 0 m
      → Keyed 0 (add_stream_buffer b m).1
  unfolding add_stream_buffer
  add_stream_buffer-Keyed b m t = by_entry (lookup b.stream_id m)
    where
      by_entry : (o : Option (StreamBuffer M)) → Keyed 0 (add_if_free o b m).1
      by_entry none = Keyed-assign 0 b.stream_id b m (omega arith) refl t
      by_entry (some old) = t

  remove_stream_buffer-Keyed :
      (id : ℕ) (m : OrderedMap (StreamBuffer M)) → Keyed 0 m → Keyed 0 (remove_stream_buffer id m).1
  unfolding remove_stream_buffer
  remove_stream_buffer-Keyed id m t = by_entry (lookup id m)
    where
      by_entry : (o : Option (StreamBuffer M)) → Keyed 0 (remove_if_there id o m).1
      by_entry none = t
      by_entry (some old) = Keyed-erase 0 id m t

  -- Adding a buffer, removing one and a turn of the timer each leave the keys in rising order and
  -- every buffer under its own stream id, if it was so before.
  pub buffers-Keyed :
      (b : StreamBuffer M) (id now : ℕ) (completed : ℕ → Bool) (session : ℕ → ℕ) (s : Streams M)
      → Keyed 0 s.buffers
      → Keyed 0 (add_stream_buffer b s.buffers).1
        × Keyed 0 (remove_stream_buffer id s.buffers).1
        × Keyed 0 (on_timer completed session now s).1.buffers
  unfolding on_timer drop_stale
  buffers-Keyed b id now completed session s t = (
    add_stream_buffer-Keyed b s.buffers t,
    remove_stream_buffer-Keyed id s.buffers t,
    Keyed-erase_all (stale_ids now s.buffers) s.buffers t,
  )

  lookup-add :
      (b : StreamBuffer M) (m : OrderedMap (StreamBuffer M))
      → lookup b.stream_id m ≡ none
      → lookup b.stream_id (add_stream_buffer b m).1 ≡ some b
  unfolding add_stream_buffer
  lookup-add b m free =
      ground (arith, lookup-assign b.stream_id b.stream_id b m, ==_self b.stream_id)

  abbrev pub with_added : StreamBuffer M → Streams M → Streams M
  with_added b s = record s { buffers = (add_stream_buffer b s.buffers).1 }

  -- In a server whose buffers stand under their ids: a buffer without any activity yet, as
  -- `StreamBuffer`'s constructors leave it, that is added under a free id is gone after the next
  -- turn of the timer, at every time of 64 bits later than 60 seconds after the epoch.
  pub untouched_dropped :
      (b : StreamBuffer M) (now : ℕ) (completed : ℕ → Bool) (session : ℕ → ℕ) (s : Streams M)
      → Keyed 0 s.buffers
      → lookup b.stream_id s.buffers ≡ none
      → b.last_activity ≡ 0
      → 60 < now
      → now < u64
      → lookup b.stream_id (on_timer completed session now (with_added b s)).1.buffers ≡ none
  unfolding is_stale
  untouched_dropped b now completed session s t free idle late fits = ground (
    arith,
    lookup-add b s.buffers free,
    (on_timer_lem completed session now b.stream_id 0 (with_added b s)
        (add_stream_buffer-Keyed b s.buffers t)).0,
  )
