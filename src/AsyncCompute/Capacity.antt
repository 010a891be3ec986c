-- ===== src/AsyncCompute/Capacity.antt =====
-- The counters of the concurrency groups.
use reactive_graph_experimen.Base.{
  ℕ, zero, suc, ◌+◌, ◌≤◌, ◌≡◌, ◌≢◌, ◌⊎◌, inl, inr, refl, sym, subst, Bool, true, false, Option,
  none, some, List, [], ◌∷◌, length, leb, ltb, Map, lookup, insert, lookup-insert, arith, eq_cases,
  eq_refl, nat_eq, ◌==◌, if◌then◌else◌, Option-cases,
}
use reactive_graph_experimen.NodeRef.{NodeId, id_eq}
use reactive_graph_experimen.Graph.{Future}
use reactive_graph_experimen.AsyncCompute.{
  AsyncManager, ConcurrencyGroupState, try_spawn_after, find_group, group_of, enqueue, admit,
  spawn_after, release_group, drain_group, queue_length, leave_group, try_spawn_from_group_queue,
  spawn_raw, take_work, QueuedWork,
}

abbrev pub Groups : Type 0
Groups = Map ℕ ConcurrencyGroupState

-- Every group of a map satisfies a predicate.
abbrev pub Every : (ℕ → ConcurrencyGroupState → Type 0) → Groups → Type 0
Every P groups =
    (gid : ℕ) (group : ConcurrencyGroupState) → lookup gid groups ≡ some group → P gid group

pub Every-insert :
    (P : ℕ → ConcurrencyGroupState → Type 0) (groups : Groups) (gid : ℕ)
    (new : ConcurrencyGroupState)
    → ((j : ℕ) (g : ConcurrencyGroupState) → lookup j groups ≡ some g → gid ≢ j → P j g)
    → P gid new
    → Every P (insert gid new groups)
Every-insert P groups gid new others at_gid j g found = by_cases (eq_cases gid j)
  where
    by_cases : ((gid == j) ≡ true) × (gid ≡ j) ⊎ ((gid == j) ≡ false) × (gid ≢ j) → P j g
    by_cases (inl (same, q)) =
        subst (P j) (ground (arith, same, found, lookup-insert gid j new groups))
          (subst (λ i. P i new) q at_gid)
    by_cases (inr (differ, q)) =
        others j g (ground (arith, differ, found, lookup-insert gid j new groups)) q

-- No more work is counted than allowed, and work waits only while the group is full.
abbrev pub Fits : ℕ → ConcurrencyGroupState → Type 0
Fits gid g =
    (g.in_flight ≤ g.max_concurrent) × ((length g.queue ≡ 0) ⊎ (g.in_flight ≡ g.max_concurrent))

-- `Fits`, but that the given group may have one place free while work waits.
abbrev pub Near : Option ℕ → ℕ → ConcurrencyGroupState → Type 0
Near group_id gid g =
    (g.in_flight ≤ g.max_concurrent)
    × ((length g.queue ≡ 0)
        ⊎ (g.in_flight ≡ g.max_concurrent)
        ⊎ (group_id ≡ some gid) × (g.in_flight + 1 ≡ g.max_concurrent))

abbrev Found : AsyncManager → Option ℕ → Type 0
Found m group_id =
    (gid : ℕ) × (group : ConcurrencyGroupState) × (group_id ≡ some gid)
    × (lookup gid m.groups ≡ some group)
    × (find_group m group_id ≡ some (gid, group))

abbrev Missing : AsyncManager → Option ℕ → Type 0
Missing m group_id =
    (find_group m group_id ≡ none) × ((gid : ℕ) → group_id ≡ some gid → lookup gid m.groups ≡ none)

find_group_cases : (m : AsyncManager) (group_id : Option ℕ) → Missing m group_id ⊎ Found m group_id
unfolding find_group
find_group_cases m none = inl (refl, λ gid q. ground (arith, q))
find_group_cases m (some j) = by_cases (Option-cases (lookup j m.groups))
  where
    by_cases :
        (lookup j m.groups ≡ none)
          ⊎ ((group : ConcurrencyGroupState) × (lookup j m.groups ≡ some group))
        → Missing m (some j) ⊎ Found m (some j)
    by_cases (inl absent) = inl (rw (absent, find_group) refl, λ gid q. ground (arith, q, absent))
    by_cases (inr (group, found)) = inr (j, group, refl, found, rw (found, find_group) refl)

groups-spawn_after :
    (m : AsyncManager) (id : NodeId) (f : Future) (delay : ℕ)
    → (spawn_after m id f delay).groups ≡ m.groups
unfolding spawn_after
groups-spawn_after m id f delay = refl

pub Fits-Near :
    (group_id : Option ℕ) (groups : Groups) → Every Fits groups → Every (Near group_id) groups
Fits-Near group_id groups fits j g found = let h = fits j g found in ground (arith, h)

module _ (m : AsyncManager) (id : NodeId) (f : Future) (delay : ℕ) where
  module _ (gid : ℕ) (group : ConcurrencyGroupState) (in_group : group_of m id ≡ some gid)
      (found : lookup gid m.groups ≡ some group)
      (near : Every (Near (group_of m id)) m.groups) where
    place-Fits :
        (full : Bool)
        → leb group.max_concurrent group.in_flight ≡ full
        → Every Fits
            (if full
              then enqueue m gid group id f
              else spawn_after (admit m gid group) id f delay).groups
    unfolding enqueue admit spawn_after
    place-Fits true q =
        Every-insert Fits m.groups gid _
          (λ j g at_j differ. let h = near j g at_j in ground (arith, h, in_group, differ))
          (let h = near gid group found in ground (arith, h, q))
    place-Fits false q =
        Every-insert Fits m.groups gid _
          (λ j g at_j differ. let h = near j g at_j in ground (arith, h, in_group, differ))
          (let h = near gid group found in ground (arith, h, q))

  -- A node that may use the one free place of its group takes it.
  pub try_spawn_after-Fits :
      Every (Near (group_of m id)) m.groups → Every Fits (try_spawn_after m id f delay).groups
  unfolding try_spawn_after
  try_spawn_after-Fits near = by_group (find_group_cases m (group_of m id))
    where
      by_group :
          Missing m (group_of m id) ⊎ Found m (group_of m id)
          → Every Fits (try_spawn_after m id f delay).groups
      by_group (inl (q, absent)) =
          rw (q, try_spawn_after, groups-spawn_after m id f delay)
            (λ j g found.
              let h = near j g found in let no = absent j in ground (arith, h, no, found))
      by_group (inr (gid, group, q, found, r)) =
          rw (r, try_spawn_after)
            (place-Fits gid group q found near (leb group.max_concurrent group.in_flight) refl)

-- A release leaves at most one place free while work waits.
pub release_group-Near :
    (m : AsyncManager) (group_id : Option ℕ)
    → Every Fits m.groups
    → Every (Near group_id) (release_group m group_id).groups
unfolding release_group
release_group-Near m group_id fits = by_group (find_group_cases m group_id)
  where
    by_group :
        Missing m group_id ⊎ Found m group_id
        → Every (Near group_id) (release_group m group_id).groups
    by_group (inl (q, absent)) = rw (q, release_group) (Fits-Near group_id m.groups fits)
    by_group (inr (gid, group, q, found, r)) =
        rw (r, release_group)
          (Every-insert (Near group_id) m.groups gid _
            (λ j g at_j differ. Fits-Near group_id m.groups fits j g at_j)
            (let h = fits gid group found in ground (arith, h, q)))

-- All groups fit, but that work may wait in the given one while it is not full.
abbrev pub Loose : ℕ → ℕ → ConcurrencyGroupState → Type 0
Loose gid j g =
    (g.in_flight ≤ g.max_concurrent)
    × ((length g.queue ≡ 0) ⊎ (g.in_flight ≡ g.max_concurrent) ⊎ (gid ≡ j))

Near-Loose : (gid : ℕ) (groups : Groups) → Every (Near (some gid)) groups → Every (Loose gid) groups
Near-Loose gid groups near j g found = let h = near j g found in ground (arith, h)

queue_length-of_lookup :
    (m : AsyncManager) (gid : ℕ) (group : ConcurrencyGroupState)
    → lookup gid m.groups ≡ some group
    → queue_length m gid ≡ length group.queue
unfolding queue_length
queue_length-of_lookup m gid group found = rw (found, queue_length) refl

-- A group whose queue is empty, or that is full, stops the loop, and then all groups fit.
stopped-Fits :
    (m : AsyncManager) (gid : ℕ)
    → Every (Loose gid) m.groups
    → ((group : ConcurrencyGroupState)
        → lookup gid m.groups ≡ some group
        → (length group.queue ≡ 0) ⊎ (group.max_concurrent ≤ group.in_flight))
    → Every Fits m.groups
stopped-Fits m gid loose stopped j g found = by_cases (eq_cases gid j)
  where
    by_cases : ((gid == j) ≡ true) × (gid ≡ j) ⊎ ((gid == j) ≡ false) × (gid ≢ j) → Fits j g
    by_cases (inl (same, q)) =
        let h = loose j g found in
        let stop = stopped g (subst (λ i. lookup i m.groups ≡ some g) (sym q) found) in
        ground (arith, h, stop)
    by_cases (inr (differ, q)) = let h = loose j g found in ground (arith, h, q)

-- The manager after one round of the loop.
abbrev next : AsyncManager → ℕ → ConcurrencyGroupState → QueuedWork → List QueuedWork → AsyncManager
next m gid group work rest = spawn_raw (take_work m gid group rest) work.node_id work.future

groups-next :
    (m : AsyncManager) (gid : ℕ) (group : ConcurrencyGroupState) (work : QueuedWork)
    (rest : List QueuedWork)
    → (next m gid group work rest).groups
      ≡ insert gid (record group { in_flight = group.in_flight + 1; queue = rest }) m.groups
unfolding spawn_raw take_work spawn_after
groups-next m gid group work rest = refl

queue_length-next :
    (m : AsyncManager) (gid : ℕ) (group : ConcurrencyGroupState) (work : QueuedWork)
    (rest : List QueuedWork)
    → queue_length (next m gid group work rest) gid ≡ length rest
queue_length-next m gid group work rest =
    queue_length-of_lookup (next m gid group work rest) gid
      (record group { in_flight = group.in_flight + 1; queue = rest })
      (rw (groups-next m gid group work rest) (
        ground (
          arith,
          eq_refl gid,
          lookup-insert gid gid (record group { in_flight = group.in_flight + 1; queue = rest })
              m.groups,
        )))

-- One round of the loop of `drain_group-Fits`.
drain_step-Fits :
    (fuel : ℕ) (m : AsyncManager) (gid : ℕ)
    → Every (Loose gid) m.groups
    → queue_length m gid ≤ suc fuel
    → ((m' : AsyncManager)
        → Every (Loose gid) m'.groups
        → queue_length m' gid ≤ fuel
        → Every Fits (drain_group fuel m' gid).groups)
    → Every Fits (drain_group (suc fuel) m gid).groups
unfolding drain_group
drain_step-Fits fuel m gid loose enough later = by_lookup (Option-cases (lookup gid m.groups))
  where
    by_place :
        (group : ConcurrencyGroupState) (work : QueuedWork) (rest : List QueuedWork)
        → lookup gid m.groups ≡ some group
        → group.queue ≡ work ∷ rest
        → (free : Bool) → ltb group.in_flight group.max_concurrent ≡ free
        → Every Fits (drain_group (suc fuel) m gid).groups
    by_place group work rest found q false r =
        rw (found, drain_group, q, r)
          (stopped-Fits m gid loose (λ g at_gid. ground (arith, at_gid, found, r)))
    by_place group work rest found q true r =
        rw (found, drain_group, q, r)
          (later (next m gid group work rest)
            (rw (groups-next m gid group work rest) (
              Every-insert (Loose gid) m.groups gid _ (λ j g at_j differ. loose j g at_j)
                (ground (arith, r))))
            (rw (queue_length-next m gid group work rest)
              (let n = queue_length-of_lookup m gid group found in ground (arith, n, q, enough))))

    by_queue :
        (group : ConcurrencyGroupState) (queue : List QueuedWork)
        → lookup gid m.groups ≡ some group
        → group.queue ≡ queue
        → Every Fits (drain_group (suc fuel) m gid).groups
    by_queue group [] found q =
        rw (found, drain_group, q)
          (stopped-Fits m gid loose (λ g at_gid. ground (arith, at_gid, found, q)))
    by_queue group (work ∷ rest) found q =
        by_place group work rest found q (ltb group.in_flight group.max_concurrent) refl

    by_lookup :
        (lookup gid m.groups ≡ none)
          ⊎ ((group : ConcurrencyGroupState) × (lookup gid m.groups ≡ some group))
        → Every Fits (drain_group (suc fuel) m gid).groups
    by_lookup (inl absent) =
        rw (absent, drain_group)
          (stopped-Fits m gid loose (λ g found. ground (arith, absent, found)))
    by_lookup (inr (group, found)) = by_queue group group.queue found refl

-- The loop over the queue of a group, on fuel for every entry of the queue.
drain_group-Fits :
    (fuel : ℕ) (m : AsyncManager) (gid : ℕ)
    → Every (Loose gid) m.groups
    → queue_length m gid ≤ fuel
    → Every Fits (drain_group fuel m gid).groups
unfolding drain_group
drain_group-Fits zero m gid loose enough = stopped-Fits m gid loose (λ group found.
    let n = queue_length-of_lookup m gid group found in inl (omega (arith, n, enough)))
drain_group-Fits (suc fuel) m gid loose enough =
    drain_step-Fits fuel m gid loose enough (λ m'. drain_group-Fits fuel m' gid)

pub leave_group-Fits :
    (m : AsyncManager) (group_id : Option ℕ)
    → Every Fits m.groups
    → Every Fits (leave_group m group_id).groups
unfolding leave_group try_spawn_from_group_queue
leave_group-Fits m none fits = fits
leave_group-Fits m (some gid) fits =
    let m' : AsyncManager = release_group m (some gid) in
    drain_group-Fits (queue_length m' gid) m' gid
      (Near-Loose gid m'.groups (release_group-Near m (some gid) fits)) (omega arith)
