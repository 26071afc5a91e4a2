-- ===== src/Cache/Tests.antt =====
-- A cache of one entry, runs of it, and the theorems applied to them.
use orbitive.Prelude.{
  ℕ, ◌≡◌, refl, sym, ap, ◌∙◌, Bool, true, false, ◌&&◌, ◌||◌, List, [], ◌∷◌, Option, none, some,
  bytes_eq, bytes_eq_sound, bytes_eq_self, ok, arith, if◌then◌else◌, subst, Bool-cases, ◌⊎◌, inl,
  inr,
}
use orbitive.Cache.Revision.{
  CacheRevision, PayloadRef, put, delete, CacheMutation, revision_of, older,
}
use orbitive.Cache.Lru.{LruCache, IsLru, any_entry, holds}
use orbitive.Cache.Protocol.{decode_with_slot_limit, encode_put, validate_store, validate_key}
use orbitive.Cache.Protocol.Roundtrip.{
  encode_mutation, frame_of, decode_with_slot_limit-encode_mutation,
}
use orbitive.Cache.Local.Events.{Event, polled, looked, step, run}
use orbitive.Cache.Local.History.{never_stale}
use orbitive.Cache.Local.Hits.{apply-read_at}
use orbitive.Cache.Local.{
  carry_out, accepts, put_slot, advance_floor, LocalSlot, LocalState, new_local, hit, miss,
  CacheEntry, read_at, apply, applied, resolve_payload, Arena,
}

module _ {V : Type 0} where
  abbrev peek_one : Option (List ℕ × V) → List ℕ → Option V
  peek_one none k = none
  peek_one (some (j, v)) k = if bytes_eq j k then some v else none

  abbrev pop_one : Option (List ℕ × V) → List ℕ → Option (List ℕ × V)
  pop_one none k = none
  pop_one (some (j, v)) k = if bytes_eq j k then none else some (j, v)

  abbrev entries : Option (List ℕ × V) → List (List ℕ × V)
  entries none = []
  entries (some e) = e ∷ []

abbrev one : LruCache LocalSlot
one = record {
  Cache = Option (List ℕ × LocalSlot);
  new = λ capacity. none;
  peek = peek_one;
  get = λ c k. (peek_one c k, c);
  put = λ c k v. some (k, v);
  push = λ c k v. (c, some (k, v));
  pop = pop_one;
  clear = λ c. none;
  iter = entries;
}

peek-put_one :
    (c : Option (List ℕ × LocalSlot)) (k j : List ℕ) (v old : LocalSlot)
    → peek_one c k ≡ some old
    → (if bytes_eq k j then some v else none) ≡ (if bytes_eq k j then some v else peek_one c j)
peek-put_one none k j v old h = cc
peek-put_one (some (i, w)) k j v old h = split (Bool-cases (bytes_eq i k))
  where
    absurd_none :
        none ≡ some old
        → (if bytes_eq k j then some v else none)
          ≡ (if bytes_eq k j then some v else (if bytes_eq i j then some w else none))
    absurd_none e = cc

    collapse :
        (b : Bool)
        → (if b then some v else none) ≡ (if b then some v else (if b then some w else none))
    collapse true = refl
    collapse false = refl

    split :
        (bytes_eq i k ≡ true) ⊎ (bytes_eq i k ≡ false)
        → (if bytes_eq k j then some v else none)
          ≡ (if bytes_eq k j then some v else (if bytes_eq i j then some w else none))
    split (inl same) =
        subst
          (λ i.
            (if bytes_eq k j then some v else none)
            ≡ (if bytes_eq k j then some v else (if bytes_eq i j then some w else none)))
          (sym (bytes_eq_sound i k same)) (collapse (bytes_eq k j))
    split (inr apart) = absurd_none (sym (ap (λ b. if b then some w else none) apart) ∙ h)

peek-push_one :
    (c : Option (List ℕ × LocalSlot)) (k j : List ℕ) (v : LocalSlot)
    → bytes_eq k j ≡ false
    → holds (λ dropped. bytes_eq dropped.0 j) c ≡ false
    → (if bytes_eq k j then some v else none) ≡ peek_one c j
peek-push_one none k j v apart h = rw (apart) refl
peek-push_one (some (i, w)) k j v apart h = rw (apart, h) refl

dropped_one :
    (c : Option (List ℕ × LocalSlot)) (j : List ℕ) (w : LocalSlot)
    → c ≡ some (j, w)
    → peek_one c j ≡ some w
dropped_one c j w h =
    ap (λ c. peek_one c j) h ∙ ap (λ b. if b then some w else none) (bytes_eq_self j)

peek-pop_one :
    (c : Option (List ℕ × LocalSlot)) (k j : List ℕ)
    → peek_one (pop_one c k) j ≡ (if bytes_eq k j then none else peek_one c j)
peek-pop_one none k j = split (bytes_eq k j)
  where
    split : (b : Bool) → none ≡ (if◌then◌else◌ {A = Option LocalSlot} b none none)
    split true = refl
    split false = refl
peek-pop_one (some (i, w)) k j = split (Bool-cases (bytes_eq i k))
  where
    found : Option LocalSlot
    found = if bytes_eq i j then some w else none

    left : Bool → Option LocalSlot
    left b = peek_one (if b then none else some (i, w)) j

    collapse : (b : Bool) → none ≡ (if b then none else (if b then some w else none))
    collapse true = refl
    collapse false = refl

    other :
        bytes_eq i k ≡ false
        → (bytes_eq k j ≡ true) ⊎ (bytes_eq k j ≡ false)
        → found ≡ (if bytes_eq k j then none else found)
    other apart (inl same) =
        ap (λ b. if b then some w else none)
          (ap (bytes_eq i) (sym (bytes_eq_sound k j same)) ∙ apart)
        ∙ sym (ap (λ b. if b then none else found) same)
    other apart (inr h) = sym (ap (λ b. if b then none else found) h)

    split :
        (bytes_eq i k ≡ true) ⊎ (bytes_eq i k ≡ false)
        → left (bytes_eq i k) ≡ (if bytes_eq k j then none else found)
    split (inl same) =
        ap left same
        ∙ subst
            (λ i. none ≡ (if bytes_eq k j then none else (if bytes_eq i j then some w else none)))
            (sym (bytes_eq_sound i k same)) (collapse (bytes_eq k j))
    split (inr apart) = ap left apart ∙ other apart (Bool-cases (bytes_eq k j))

entries_one :
    (c : Option (List ℕ × LocalSlot)) (j : List ℕ) (q : LocalSlot → Bool)
    → any_entry (λ e. bytes_eq e.0 j && q e.1) (entries c) ≡ holds q (peek_one c j)
entries_one none j q = refl
entries_one (some (i, w)) j q = split (bytes_eq i j) (q w) refl
  where
    split : (b d : Bool) → q w ≡ d → (b && q w || false) ≡ holds q (if b then some w else none)
    split true true h = rw (h) refl
    split true false h = rw (h) refl
    split false d h = refl

one-IsLru : IsLru one
one-IsLru = record {
  peek-new = λ capacity j. refl;
  get-value = λ c k. refl;
  peek-get = λ c k j. refl;
  peek-put = peek-put_one;
  peek-push = λ c k v. ap (λ b. if b then some v else none) (bytes_eq_self k);
  peek-push_other = peek-push_one;
  push-dropped = λ c k j v w h. dropped_one c j w h;
  peek-pop = peek-pop_one;
  peek-clear = λ c j. refl;
  iter-entries = entries_one;
}

abbrev rev : ℕ → CacheRevision
rev n = record { sequence = n; mutation_id = 1 }

abbrev ref : PayloadRef
ref = record { address = record { slot = 0; generation = 1 }; value_len = 2 }

abbrev arena : Arena
arena a = some (9 ∷ 8 ∷ [])

abbrev key : List ℕ
key = 7 ∷ []

-- The key's put at 5, after a delete at 2; then a late put at 3 and a read.
abbrev late : List Event
late = polled arena (put [] key (rev 3) none ref) ∷ looked arena key 100 ∷ []

abbrev history : LocalState one
history = run one late (
    step one (polled arena (put [] key (rev 5) (some 200) ref))
      (run one (polled arena (delete [] key (rev 2)) ∷ []) (new_local one 1)))

abbrev newest_entry : CacheEntry
newest_entry = record { value = 9 ∷ 8 ∷ []; revision = rev 5; expires_at_ms = some 200 }

late_served : (read_at one arena key 150 history).0 ≡ hit newest_entry
unfolding run step read_at apply carry_out revision_of accepts put_slot advance_floor
    resolve_payload older bytes_eq
late_served = refl

-- At its deadline the entry is gone, and a mutation that is older still does not come back.
gone :
    (read_at one arena key 200 (
      step one
        (polled arena (put [] key (rev 4) none ref))
        (step one (looked arena key 200) history))).0
    ≡ miss
unfolding run step read_at apply carry_out revision_of accepts put_slot advance_floor
    resolve_payload older bytes_eq
gone = refl

never_stale_example : older (rev 5) (rev 5) ≡ true
unfolding revision_of
never_stale_example =
    never_stale one one-IsLru 1 (polled arena (delete [] key (rev 2)) ∷ []) late
      (polled arena (put [] key (rev 5) (some 200) ref)) key (rev 5) arena 150 newest_entry
      (refl, refl) tt late_served

abbrev start : LocalState one
start = run one (polled arena (delete [] key (rev 2)) ∷ []) (new_local one 1)

start_coherent : start.coherent ≡ true
unfolding run step apply carry_out revision_of accepts put_slot advance_floor resolve_payload older
    bytes_eq
start_coherent = refl

start_applies : (apply one arena (put [] key (rev 5) (some 200) ref) start).0 ≡ applied
unfolding run step apply carry_out revision_of accepts put_slot advance_floor resolve_payload older
    bytes_eq
start_applies = refl

body_there : resolve_payload arena ref ≡ some (9 ∷ 8 ∷ [])
unfolding resolve_payload
body_there = refl

apply-read_at_example :
    (read_at one arena key 150 (apply one arena (put [] key (rev 5) (some 200) ref) start).1).0
    ≡ hit newest_entry
apply-read_at_example =
    apply-read_at one one-IsLru arena [] key (rev 5) (some 200) ref (9 ∷ 8 ∷ []) 150 start
      start_coherent start_applies body_there refl

-- A put of one key of the store "5", of which the frame has 33 bytes of header and two of names.
abbrev some_put : CacheMutation
some_put = put (5 ∷ []) key (rev 5) (some 200) ref

abbrev some_payload : List ℕ
some_payload =
    3 ∷ 1 ∷ 0 ∷ 1 ∷ 0 ∷ 200 ∷ 0 ∷ 0 ∷ 0 ∷ 0 ∷ 0 ∷ 0 ∷ 0 ∷ 0 ∷ 0 ∷ 0 ∷ 0 ∷ 1 ∷ 0 ∷ 0 ∷ 0 ∷ 0 ∷ 0 ∷ 0
    ∷ 0 ∷ 2 ∷ 0 ∷ 0 ∷ 0 ∷ 0 ∷ 0 ∷ 0 ∷ 0 ∷ 5 ∷ 7 ∷ []

some_encodes : encode_mutation 1024 some_put ≡ ok some_payload
unfolding encode_mutation encode_put validate_store validate_key
some_encodes = refl

decode_with_slot_limit-encode_mutation_example :
    decode_with_slot_limit 16 (frame_of some_put some_payload) ≡ some some_put
decode_with_slot_limit-encode_mutation_example =
    decode_with_slot_limit-encode_mutation 1024 16 some_put some_payload
      (omega arith, omega arith, omega arith, omega arith, omega arith, (omega arith, omega arith))
      some_encodes
