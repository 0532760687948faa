-- ===== src/Mapred/TaskTracker/Shuffle.antt =====
-- The outputs of map tasks as a reduce task gets them from the shuffle servers.
use mini_hadoop.Common.{
  ℕ, ◌<◌, ◌^◌, ◌≡◌, refl, sym, ap, subst, ◌∙◌, Bool, true, false, List, [], ◌∷◌, ◌++◌, append-nil,
  append_assoc, Option, none, some, arith, if◌then◌else◌, length, All, Outcome, ok, throws, ◌↔◌,
  Bool-cases, inl, inr,
}
use mini_hadoop.Common.Assoc.{lookup, insert, lookup-insert}
use mini_hadoop.Common.Int.{ℤ, pos, eqb_ℤ, eqb_ℤ_iff, IsInt32, IsInt64, wrap32_of_lt}
use mini_hadoop.Common.Text.{Bytes, str_eq, str_eq_iff}
use mini_hadoop.Io.Buffer.{OutputBuffer, InputBuffer, reset, read_int, read_long, read_string}
use mini_hadoop.Io.Buffer.Cursor.{Reads, >>=-Reads, map-Reads, return-Reads}
use mini_hadoop.Io.Buffer.RoundTrip.{read_int-Reads, read_long-Reads, read_string-Reads, size-Reads}
use mini_hadoop.Io.Buffer.Fields.{IsFit, fields_bytes, write_fields, read_message}
use mini_hadoop.Mapred.DistJobTracker.{MapOutputLocation}
use mini_hadoop.Mapred.JobTracker.{MapOutput, sort, pair_less}
use mini_hadoop.Mapred.JobTracker.Partitions.{map_outputs}
use mini_hadoop.Mapred.TaskTracker.Execution.{
  Slot, slot_eq, Store, stored, push_output, hash_partition, store_outputs, execute_map_task,
  output_fields, shuffle_fields, handle_shuffle, shuffle_request, read_outputs, read_shuffle,
  shuffle,
}

slot_eq_iff : (a b : Slot) → (slot_eq a b ≡ true) ↔ (a ≡ b)
slot_eq_iff (a, p) (b, q) = (
  λ h. ground (arith, str_eq_iff a b, eqb_ℤ_iff p q),
  λ h. ground (arith, str_eq_iff a b, eqb_ℤ_iff p q),
)

hash_partition-zero : (hash : Bytes → ℕ) (k : Bytes) → hash_partition hash k ≡ pos 0
unfolding hash_partition
hash_partition-zero hash k = elim (Bool-cases (str_eq k [])) [
  | inl e ↦ rw e refl
  | inr e ↦ rw e (ap pos (omega arith))
]

-- All outputs of a map task go to its first slot; the other slots are as they were.
pub lookup-store_outputs :
    (hash : Bytes → ℕ) (id : Bytes) (outputs : List MapOutput) (store : Store) (slot : Slot)
    → stored (lookup slot_eq slot (store_outputs hash id outputs store))
      ≡ stored (lookup slot_eq slot store) ++ (if slot_eq (id, pos 0) slot then outputs else [])
unfolding store_outputs
lookup-store_outputs hash id [] store slot =
    sym (append-nil (stored (lookup slot_eq slot store)))
    ∙ ap (◌++◌ (stored (lookup slot_eq slot store))) (same_branches (slot_eq (id, pos 0) slot))
  where
    same_branches : (b : Bool) → [] ≡ (if b then (let e : List MapOutput = [] in e) else [])
    same_branches true = refl
    same_branches false = refl
lookup-store_outputs hash id ((k, v) ∷ outputs) store slot =
    let here : Slot = (id, pos 0) in
    let after = insert slot_eq here (stored (lookup slot_eq here store) ++ ((k, v) ∷ [])) store in
    ap
      (λ (p : ℤ).
        stored
          (lookup slot_eq slot (store_outputs hash id outputs (push_output (id, p) (k, v) store))))
      (hash_partition-zero hash k)
    ∙ lookup-store_outputs hash id outputs after slot
    ∙ elim (Bool-cases (slot_eq here slot)) [
      | inl e ↦
          let same : here ≡ slot = (slot_eq_iff here slot).0 e in
          rw
            (
              lookup-insert slot_eq slot_eq_iff here slot
                  (stored (lookup slot_eq here store) ++ ((k, v) ∷ [])) store,
              e,
            )
            (append_assoc (stored (lookup slot_eq here store)) ((k, v) ∷ []) outputs
              ∙ ap (λ (s : Slot). stored (lookup slot_eq s store) ++ ((k, v) ∷ outputs)) same)
      | inr e ↦
          rw
            (
              lookup-insert slot_eq slot_eq_iff here slot
                  (stored (lookup slot_eq here store) ++ ((k, v) ∷ [])) store,
              e,
            )
            refl
    ]

-- The values fit their C++ types, and the strings and the list are below 2 ^ 31.
abbrev pub IsFitOutputs : List MapOutput → Type 0
IsFitOutputs outputs =
    All (λ o. (length o.0 < 2 ^ 31) × IsInt64 o.1) outputs × (length outputs < 2 ^ 31)

read_outputs-Reads :
    (outputs : List MapOutput)
    → All (λ o. (length o.0 < 2 ^ 31) × IsInt64 o.1) outputs
    → Reads (read_outputs (length outputs)) outputs (fields_bytes (output_fields outputs))
read_outputs-Reads [] h = return-Reads []
read_outputs-Reads ((k, v) ∷ outputs) ((hk, hv), h) =
    >>=-Reads read_string _ (read_string-Reads k hk) (
      >>=-Reads read_long _ (read_long-Reads v hv)
        (map-Reads (read_outputs (length outputs)) (◌∷◌ (k, v)) (read_outputs-Reads outputs h)))

read_shuffle-Reads :
    (found : Option (List MapOutput))
    → IsFitOutputs (stored found)
    → Reads read_shuffle (stored found) (fields_bytes (shuffle_fields found))
unfolding read_shuffle shuffle_fields
read_shuffle-Reads none h =
    >>=-Reads read_int _ (read_int-Reads (pos 0) (omega arith)) (return-Reads [])
read_shuffle-Reads (some outputs) (h, n) =
    >>=-Reads read_int _ (read_int-Reads (pos 1) (omega arith))
      (>>=-Reads read_int _ (size-Reads (length outputs) n) (read_outputs-Reads outputs h))

output_fields-IsFit :
    (outputs : List MapOutput)
    → All (λ o. (length o.0 < 2 ^ 31) × IsInt64 o.1) outputs
    → All IsFit (output_fields outputs)
output_fields-IsFit [] h = tt
output_fields-IsFit ((k, v) ∷ outputs) ((hk, hv), h) = (hk, (hv, output_fields-IsFit outputs h))

shuffle_fields-IsFit :
    (found : Option (List MapOutput))
    → IsFitOutputs (stored found)
    → All IsFit (shuffle_fields found)
unfolding shuffle_fields
shuffle_fields-IsFit none h = (omega arith, tt)
shuffle_fields-IsFit (some outputs) (h, n) = (
  omega arith,
  (subst IsInt32 (sym (wrap32_of_lt (length outputs) n)) n, output_fields-IsFit outputs h),
)

handle_shuffle-Reads :
    (store : Store) (loc : MapOutputLocation)
    → length loc.location_task_id < 2 ^ 31
    → IsInt32 loc.location_partition
    → Reads
        (handle_shuffle store)
        (
          store,
          write_fields [] (
              shuffle_fields (lookup slot_eq (loc.location_task_id, loc.location_partition) store)),
        )
        (fields_bytes (shuffle_request loc))
unfolding handle_shuffle
handle_shuffle-Reads store loc hi hp =
    >>=-Reads read_string _ (read_string-Reads loc.location_task_id hi)
      (>>=-Reads read_int _ (read_int-Reads loc.location_partition hp) (return-Reads _))

abbrev pub replied : Outcome ((Store × OutputBuffer) × InputBuffer) → Option Bytes
replied (throws e) = none
replied (ok ((_, resp), _)) = some resp

-- What the shuffle server with a store answers to a call.
abbrev pub answer : Store → OutputBuffer → Option Bytes
answer store req = replied (handle_shuffle store (reset req))

-- What is stored for a location.
abbrev pub stored_for : Store → MapOutputLocation → List MapOutput
stored_for store loc = stored (lookup slot_eq (loc.location_task_id, loc.location_partition) store)

-- A location whose request and reply are within their limits.
pub record IsFitShuffle (store : Store) (loc : MapOutputLocation) : Type 0 where
  pub id_fits : length loc.location_task_id < 2 ^ 31
  pub partition_fits : IsInt32 loc.location_partition
  pub outputs_fit : IsFitOutputs (stored_for store loc)
  pub request_small : length (write_fields [] (shuffle_request loc)) < 2 ^ 63
  pub reply_small :
      length (
        write_fields []
          (shuffle_fields (lookup slot_eq (loc.location_task_id, loc.location_partition) store)))
      < 2 ^ 63

answer-shuffle_request :
    (store : Store) (loc : MapOutputLocation)
    → IsFitShuffle store loc
    → answer store (write_fields [] (shuffle_request loc))
      ≡ some (
          write_fields []
            (shuffle_fields (lookup slot_eq (loc.location_task_id, loc.location_partition) store)))
answer-shuffle_request store loc h = ap replied (
    read_message (handle_shuffle store)
      (
        store,
        write_fields []
            (shuffle_fields (lookup slot_eq (loc.location_task_id, loc.location_partition) store)),
      )
      (shuffle_request loc) (h.id_fits, (h.partition_fits, tt)) h.request_small
      (handle_shuffle-Reads store loc h.id_fits h.partition_fits))

-- All that is stored for the locations, in their order.
abbrev pub stored_all : (MapOutputLocation → Store) → List MapOutputLocation → List MapOutput
stored_all stores [] = []
stored_all stores (loc ∷ locs) = stored_for (stores loc) loc ++ stored_all stores locs

-- A reduce task gets from the shuffle servers at the locations of its partition what they have
-- stored for them, in the order of the locations, if the values fit their C++ types and every call
-- succeeds.
pub shuffle-stored_all :
    (stores : MapOutputLocation → Store) (partition : ℤ) (locs : List MapOutputLocation)
    → All (λ loc. (loc.location_partition ≡ partition) × IsFitShuffle (stores loc) loc) locs
    → shuffle (λ loc. answer (stores loc)) partition locs ≡ ok (stored_all stores locs)
unfolding shuffle
shuffle-stored_all stores partition [] h = refl
shuffle-stored_all stores partition (loc ∷ locs) ((e, fit), h) =
    let slot : Slot = (loc.location_task_id, loc.location_partition) in
    let found = lookup slot_eq slot (stores loc) in
    let read =
      read_message read_shuffle (stored found) (shuffle_fields found)
        (shuffle_fields-IsFit found fit.outputs_fit) fit.reply_small
        (read_shuffle-Reads found fit.outputs_fit) in
    rw
      (
        (eqb_ℤ_iff loc.location_partition partition).1 e,
        answer-shuffle_request (stores loc) loc fit,
        read,
        shuffle-stored_all stores partition locs h,
      )
      refl

-- After a map task that has no slot yet, its outputs, sorted, are what is stored for its
-- first partition, and nothing is stored for any other.
pub stored_for-execute_map_task :
    (hash : Bytes → ℕ) (mapper : ℤ → Bytes → List MapOutput) (id : Bytes) (lines : List (ℤ × Bytes))
    (store : Store) (loc : MapOutputLocation)
    → loc.location_task_id ≡ id
    → stored_for store loc ≡ []
    → stored_for (execute_map_task hash mapper id lines store) loc ≡ (
        if eqb_ℤ (pos 0) loc.location_partition
        then sort pair_less (map_outputs mapper lines)
        else [])
unfolding execute_map_task
stored_for-execute_map_task hash mapper id lines store loc e empty =
    let outputs = sort pair_less (map_outputs mapper lines) in
    lookup-store_outputs hash id outputs store (loc.location_task_id, loc.location_partition)
    ∙ rw (empty, (str_eq_iff id loc.location_task_id).1 (sym e)) refl
