-- ===== src/Storage/Queue/Write/Capacity.antt =====
-- The growth of the write queue (pkg/storage/queue.go): doubling, up to the configured multiple.
use content_storage_server.Prelude.{
  ℕ, ◌+◌, ◌*◌, ◌≤◌, ◌<◌, ◌≡◌, Bool, true, false, Option, none, some, List, [], ◌∷◌, ◌++◌,
  append_assoc, append-nil, arith, length, length-append, if◌then◌else◌, leb,
}
use content_storage_server.Prelude.Int64.{Int64}
use content_storage_server.Storage.Error.{shutting_down, at_maximum_capacity}
use content_storage_server.Storage.Queue.{Queue, Chan, WriteTask, queued}
use content_storage_server.Storage.Queue.Write.{
  push, transfer, new_capacity, resize, double_queue_capacity,
}

-- A channel has the recorded capacity and does not exceed it; it is nil only after the stop.
abbrev pub FitsIn : Option Chan → Int64 → Bool → Type 0
FitsIn none size stopped = stopped ≡ true
FitsIn (some c) size stopped = (c.capacity ≡ size) × (length c.buffered ≤ size)

-- The sizes of a queue are in order, and small enough for the products of them that are computed.
pub record IsSized {D : Type 0} (q : Queue D) : Type 0 where
  pub fits : FitsIn q.write_queue q.max_queue_size q.stopped
  pub grown : q.initial_queue_size ≤ q.max_queue_size
  pub size_small : q.max_queue_size < 4611686018427387904
  pub limit_small : q.initial_queue_size * q.max_multiplier < 4611686018427387904

-- The capacity that a queue may not pass.
abbrev pub limit : {D : Type 0} → Queue D → ℕ
limit q = q.initial_queue_size * q.max_multiplier

-- With enough room every task is moved, in order.
transfer-all :
    (ts : List WriteTask) (c : Chan)
    → length c.buffered + length ts ≤ c.capacity
    → transfer ts c ≡ some (record c { buffered = c.buffered ++ ts })
unfolding transfer
transfer-all [] c h = rw (append-nil c.buffered)
transfer-all (t ∷ ts) c h = ground (
  arith,
  transfer-all ts (push c t),
  length-append c.buffered (t ∷ []),
  append_assoc c.buffered (t ∷ []) ts,
)

-- Between the old size and the limit.
new_capacity_lem :
    (old max_allowed : ℕ)
    → old < max_allowed
    → max_allowed < 4611686018427387904
    → (new_capacity old max_allowed
        ≡ (if leb (old + old) max_allowed then old + old else max_allowed))
unfolding new_capacity
new_capacity_lem old max_allowed h small = ground arith

abbrev pub next_size : {D : Type 0} → Queue D → ℕ
next_size q =
    let twice = q.max_queue_size + q.max_queue_size in
    if leb twice (limit q) then twice else limit q

module _ {D : Type 0} where
  -- What a doubling that succeeds leaves: the same tasks in a larger channel.
  abbrev pub grown_queue : Queue D → Queue D
  grown_queue q = record q {
    write_queue = some (record { buffered = queued q.write_queue; capacity = next_size q });
    max_queue_size = next_size q;
    resize_pending = true;
  }

  queued-fits :
      (q : Queue D)
      → q.stopped ≡ false
      → IsSized q
      → length (queued q.write_queue) ≤ q.max_queue_size
  queued-fits q running s = ground (arith, s.fits)

  resize_lem :
      (q : Queue D) (n : ℕ)
      → length (queued q.write_queue) ≤ n
      → n < 9223372036854775808
      → resize q n
        ≡ some (
          record q {
            write_queue = some (record { buffered = queued q.write_queue; capacity = n });
            max_queue_size = n;
            resize_pending = true;
          },
          none,
        )
  unfolding resize
  resize_lem q n fits small =
      ground (arith, transfer-all (queued q.write_queue) (record { buffered = []; capacity = n }))

  pub double_stopped :
      (q : Queue D) → q.stopped ≡ true → double_queue_capacity q ≡ some (q, some shutting_down)
  unfolding double_queue_capacity
  double_stopped q h = rw (h, double_queue_capacity)

  pub double_at_limit :
      (q : Queue D)
      → IsSized q
      → q.stopped ≡ false
      → limit q ≤ q.max_queue_size
      → double_queue_capacity q ≡ some (q, some (at_maximum_capacity (limit q)))
  unfolding double_queue_capacity
  double_at_limit q s running h = ground (arith, s.size_small, s.limit_small)

  pub double_grows :
      (q : Queue D)
      → IsSized q
      → q.stopped ≡ false
      → q.max_queue_size < limit q
      → double_queue_capacity q ≡ some (grown_queue q, none)
  unfolding double_queue_capacity
  double_grows q s running h = ground (
    arith,
    s.size_small,
    s.limit_small,
    queued-fits q running s,
    resize_lem q (next_size q),
    new_capacity_lem q.max_queue_size (limit q),
  )

  -- On a queue whose sizes are in order a doubling always returns. It is refused after the stop
  -- and at the limit, and then changes nothing; otherwise the same tasks stand, in the same
  -- order, in a channel of twice the size, or of the size of the limit if that is less.
  pub double_queue_capacity_lem :
      (q : Queue D)
      → IsSized q
      → double_queue_capacity q
        ≡ some (
            if q.stopped
            then (q, some shutting_down)
            else if leb (limit q) q.max_queue_size
            then (q, some (at_maximum_capacity (limit q)))
            else (grown_queue q, none))
  double_queue_capacity_lem q s =
      ground (arith, double_stopped q, double_at_limit q s, double_grows q s)

  pub grown-IsSized :
      (q : Queue D)
      → IsSized q
      → q.stopped ≡ false
      → q.max_queue_size < limit q
      → IsSized (grown_queue q)
  grown-IsSized q s running h = record {
    fits = ground (arith, queued-fits q running s);
    grown = ground (arith, s.grown);
    size_small = ground (arith, s.size_small, s.limit_small);
    limit_small = s.limit_small;
  }
