-- ===== src/Tests/Paths.antt =====
-- Reading and writing a field of the reference for package unstructured.
use workbenches_operator.Prelude.{String, ◌≡◌, refl, ap, ◌∙◌, Option, none, some, List, [], ◌∷◌}
use workbenches_operator.Errors.{Result, ok, err, ok-injective, >>=-eq-ok, ◌>>=◌}
use workbenches_operator.Json.{
  Value, obj, Fields, end, get, put, as_map, as_slice, slice, to_list-of_list, get-put_self,
}
use workbenches_operator.Unstructured.Reference.{reference, read, write, typed}
use workbenches_operator.Connection.Webhook.{notebook_containers_path}
use workbenches_operator.Connection.Webhook.Injection.{ReadsBack}
use workbenches_operator.Connection.Webhook.Liveness.{CanWrite}

-- A value that is written is read back.
read-write :
    (k : String) (path : List String) (v : Value) (m m' : Fields)
    → write (k ∷ path) v m ≡ ok m'
    → read (k ∷ path) m' ≡ ok (some v)
unfolding read write as_map
read-write k [] v m m' h = rw (← ok-injective h, get-put_self)
read-write k (j ∷ path) v m m' h = go (λ inner i e. read-write j path v inner i e) (get k m) refl
  where
    put_inner :
        ((inner i : Fields) → write (j ∷ path) v inner ≡ ok i → read (j ∷ path) i ≡ ok (some v))
        → (inner : Fields) → (write (j ∷ path) v inner >>= (λ i. ok (put k (obj i) m))) ≡ ok m'
        → read (k ∷ j ∷ path) m' ≡ ok (some v)
    put_inner rec inner e =
        let (i, written, rest) = >>=-eq-ok (write (j ∷ path) v inner) _ e in
        rw (← ok-injective rest, read, get-put_self) (rec inner i written)

    go :
        ((inner i : Fields) → write (j ∷ path) v inner ≡ ok i → read (j ∷ path) i ≡ ok (some v))
        → (found : Option Value) → get k m ≡ found
        → read (k ∷ j ∷ path) m' ≡ ok (some v)
    go rec none e = put_inner rec end (rw (e, write) at h)
    go rec (some (obj inner)) e = put_inner rec inner (rw (e, write) at h)
    go rec (some w) e = absurd (cc (rw (e, write) at h))

write_end-ok :
    (k : String) (path : List String) (v : Value) → (m' : Fields) × (write (k ∷ path) v end ≡ ok m')
unfolding write get
write_end-ok k [] v = (put k v end, refl)
write_end-ok k (j ∷ path) v =
    let (inner, written) = write_end-ok j path v in (put k (obj inner) end, rw written)

-- Where a field is read, it can be written.
write-ok :
    (k : String) (path : List String) (v : Value) (m : Fields) (found : Option Value)
    → read (k ∷ path) m ≡ ok found
    → (m' : Fields) × (write (k ∷ path) v m ≡ ok m')
unfolding read write as_map
write-ok k [] v m found h = (put k v m, refl)
write-ok k (j ∷ path) v m found h = go (λ old e. write-ok j path v old found e) (get k m) refl
  where
    go :
        ((old : Fields)
          → read (j ∷ path) old ≡ ok found
          → (inner : Fields) × (write (j ∷ path) v old ≡ ok inner))
        → (o : Option Value) → get k m ≡ o
        → (m' : Fields) × (write (k ∷ j ∷ path) v m ≡ ok m')
    go rec none e =
        let (inner, written) = write_end-ok j path v in
        (put k (obj inner) m, rw (e, write, written))
    go rec (some (obj old)) e =
        let (inner, written) = rec old (rw (e, read) at h) in
        (put k (obj inner) m, rw (e, write, written))
    go rec (some w) e = absurd (cc (rw (e, read) at h))

pub reference-ReadsBack : ReadsBack reference
unfolding reference typed as_slice
reference-ReadsBack = record {
  nested_slice-set = λ object object' xs h.
      ap (typed as_slice)
        (read-write "spec" ("template" ∷ "spec" ∷ "containers" ∷ []) (slice xs) object object' h)
      ∙ ap (λ ys. ok (some ys)) (to_list-of_list xs);
}

typed-ok :
    {A : Type 0} (f : Value → Option A) (r : Result (Option Value)) (a : A)
    → typed f r ≡ ok (some a)
    → (v : Value) × (r ≡ ok (some v))
unfolding typed
typed-ok f (err e) a h = absurd (cc h)
typed-ok f (ok none) a h = absurd (cc h)
typed-ok f (ok (some v)) a h = (v, refl)

pub reference-CanWrite : CanWrite reference
unfolding reference
reference-CanWrite = record {
  set_nested_slice-ok = λ object xs ys h.
      let (v, there) = typed-ok as_slice (read notebook_containers_path object) xs h in
      write-ok "spec" ("template" ∷ "spec" ∷ "containers" ∷ []) (slice ys) object (some v) there;
}
