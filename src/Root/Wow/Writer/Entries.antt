-- ===== src/Root/Wow/Writer/Entries.antt =====
-- The arrays of a group that `Encode` wrote, read by `addV2`, and the entries that the handler has
-- then.
use go_casclib.Common.{
  ℕ, suc, ◌+◌, ◌*◌, ◌^◌, ◌≤◌, ◌<◌, ◌≡◌, refl, ap, ◌∙◌, sym, arith, ne→==, ==_refl, List, [], ◌∷◌,
  ◌++◌, ok, length, length-append, append_assoc, All, false, Option, some, none,
}
use go_casclib.Binary.{
  Bytes, slice, back-append, slice-append, le_uint32-put, le_uint64_at-put, put_le_uint32,
  put_le_uint64,
}
use go_casclib.Bits.{IsU32, u32, add32, sub32}
use go_casclib.Keys.{CKeyEntry, root_entry}
use go_casclib.Root.Wow.{Handler, add_entry, add_v2, read_delta, read_hash, lookup_by_file_data_id}
use go_casclib.Root.Wow.Writer.{WriteEntry, delta_bytes, ckey_bytes, hash_bytes, has_hash}

-- An entry whose fields have the widths of the source's types
pub record Fits (e : WriteEntry) : Type 0 where
  pub id_fits : IsU32 e.file_data_id
  pub ckey_size : length e.ckey ≡ 16
  pub hash_fits : e.file_name_hash < 2 ^ 64

-- The entry of the handler for an entry that was written.
abbrev pub loaded : ℕ → ℕ → WriteEntry → CKeyEntry
loaded locale content e = root_entry e.ckey e.file_name_hash 0 e.file_data_id locale content

pub load_all : ℕ → ℕ → List WriteEntry → Handler → Handler
load_all locale content [] h = h
load_all locale content (e ∷ es) h =
    load_all locale content es (add_entry (loaded locale content e) h)

pub length-delta_bytes :
    (es : List WriteEntry) (prev : ℕ) → length (delta_bytes prev es) ≡ length es * 4
length-delta_bytes [] prev = refl
length-delta_bytes (e ∷ es) prev = omega (arith, length-delta_bytes es (add32 e.file_data_id 1))

pub length-ckey_bytes :
    (es : List WriteEntry) → All Fits es → length (ckey_bytes es) ≡ length es * 16
length-ckey_bytes [] fits = refl
length-ckey_bytes (e ∷ es) (f, fits) =
    omega (arith, length-append e.ckey (ckey_bytes es), f.ckey_size, length-ckey_bytes es fits)

pub length-hash_bytes : (es : List WriteEntry) → length (hash_bytes es) ≡ length es * 8
length-hash_bytes [] = refl
length-hash_bytes (e ∷ es) = omega (arith, length-hash_bytes es)

read_delta-written :
    (i v : ℕ) (pre rest : Bytes)
    → i * 4 < 2 ^ 32
    → length pre ≡ i * 4
    → IsU32 v
    → read_delta i (pre ++ (put_le_uint32 v ++ rest)) ≡ ok v
read_delta-written i v pre rest small h k =
    let e : u32 (i * 4) ≡ i * 4 = omega arith in
    rw (e, back-append (i * 4) pre (put_le_uint32 v ++ rest) h) (le_uint32-put v rest k)

-- The FDID comes back from its delta, whatever the one in front of it was.
delta_back : (prev id : ℕ) → IsU32 prev → IsU32 id → add32 prev (sub32 id prev) ≡ id
delta_back prev id h k = omega arith

-- The hashes, at the place of the entry `i`: there are none, or they stand behind a prefix.
abbrev pub HashesAt : ℕ → List WriteEntry → Option Bytes → Type 0
HashesAt i es none = has_hash es ≡ false
HashesAt i es (some hashes) = (pre : Bytes) × (length pre ≡ i * 8) × (hashes ≡ pre ++ hash_bytes es)

read_hash-HashesAt :
    (i : ℕ) (e : WriteEntry) (es : List WriteEntry) (hashes : Option Bytes)
    → Fits e
    → HashesAt i (e ∷ es) hashes
    → read_hash i hashes ≡ ok e.file_name_hash
unfolding has_hash
read_hash-HashesAt i e es none f h = ap ok (ground arith)
read_hash-HashesAt i e es (some hashes) f (pre, n, same) =
    rw same (le_uint64_at-put (i * 8) pre (hash_bytes es) e.file_name_hash n f.hash_fits)

HashesAt-suc :
    (i : ℕ) (e : WriteEntry) (es : List WriteEntry) (hashes : Option Bytes)
    → HashesAt i (e ∷ es) hashes
    → HashesAt (suc i) es hashes
unfolding has_hash
HashesAt-suc i e es none h = ground arith
HashesAt-suc i e es (some hashes) (pre, n, same) = (
  pre ++ put_le_uint64 e.file_name_hash,
  omega (arith, length-append pre (put_le_uint64 e.file_name_hash)),
  same ∙ sym (append_assoc pre (put_le_uint64 e.file_name_hash) (hash_bytes es)),
)

module _ (locale content : ℕ) where
  pub add_v2-written :
      (es : List WriteEntry) (i prev : ℕ) (dpre kpre : Bytes) (hashes : Option Bytes) (h : Handler)
      → (i + length es) * 4 ≤ 2 ^ 32
      → length dpre ≡ i * 4
      → length kpre ≡ i * 16
      → IsU32 prev
      → All Fits es
      → HashesAt i es hashes
      → add_v2
          (dpre ++ delta_bytes prev es)
          locale
          content
          (length es)
          i
          prev
          (kpre ++ ckey_bytes es)
          hashes
          h
        ≡ ok (load_all locale content es h)
  unfolding add_v2 load_all
  add_v2-written [] i prev dpre kpre hashes h small d k p fits g = refl
  add_v2-written (e ∷ es) i prev dpre kpre hashes h small d k p (f, fits) g =
      let delta = sub32 e.file_data_id prev in
      let ds = delta_bytes (add32 e.file_data_id 1) es in
      let e1 = read_delta-written i delta dpre ds (omega arith) d (omega arith) in
      let e2 : slice (i * 16) 16 (kpre ++ (e.ckey ++ ckey_bytes es)) ≡ ok e.ckey =
        slice-append (i * 16) 16 kpre e.ckey (ckey_bytes es) k f.ckey_size in
      let e3 = read_hash-HashesAt i e es hashes f g in
      let id = delta_back prev e.file_data_id p f.id_fits in
      let h2 = add_entry (loaded locale content e) h in
      let rest : add_v2 (dpre ++ (put_le_uint32 delta ++ ds)) locale content (length es) (suc i)
            (add32 e.file_data_id 1) (kpre ++ (e.ckey ++ ckey_bytes es)) hashes h2
          ≡ ok (load_all locale content es h2) =
        rw
          (← append_assoc dpre (put_le_uint32 delta) ds, ← append_assoc kpre e.ckey (ckey_bytes es))
          (add_v2-written es (suc i) (add32 e.file_data_id 1) (dpre ++ put_le_uint32 delta)
            (kpre ++ e.ckey) hashes h2 (omega arith)
            (omega (arith, length-append dpre (put_le_uint32 delta)))
            (omega (arith, length-append kpre e.ckey, f.ckey_size)) (omega arith) fits
            (HashesAt-suc i e es hashes g)) in
      rw (e1, e2, e3, id) rest

abbrev pub AddedBy : ℕ → ℕ → Handler → WriteEntry → Type 0
AddedBy locale content h e =
    lookup_by_file_data_id h e.file_data_id ≡ some (loaded locale content e)

-- Every entry of a list has a greater FDID.
abbrev pub Precedes : ℕ → List WriteEntry → Type 0
Precedes id [] = Unit
Precedes id (e ∷ es) = (id < e.file_data_id) × Precedes id es

abbrev pub Ascending : List WriteEntry → Type 0
Ascending [] = Unit
Ascending (e ∷ es) = Precedes e.file_data_id es × Ascending es

module _ (locale content : ℕ) where
  load_all_keeps :
      (es : List WriteEntry) (id : ℕ) (h : Handler)
      → Precedes id es
      → lookup_by_file_data_id (load_all locale content es h) id ≡ lookup_by_file_data_id h id
  unfolding load_all lookup_by_file_data_id add_entry
  load_all_keeps [] id h d = refl
  load_all_keeps (e ∷ es) id h (less, d) =
      let other = ne→== e.file_data_id id (omega arith) in
      load_all_keeps es id (add_entry (loaded locale content e) h) d ∙ rw other

  pub load_all-AddedBy :
      (es : List WriteEntry) (h : Handler)
      → Ascending es
      → All (AddedBy locale content (load_all locale content es h)) es
  unfolding load_all lookup_by_file_data_id add_entry
  load_all-AddedBy [] h a = tt
  load_all-AddedBy (e ∷ es) h (d, a) =
      let h2 = add_entry (loaded locale content e) h in
      (
        load_all_keeps es e.file_data_id h2 d ∙ rw (==_refl e.file_data_id),
        load_all-AddedBy es h2 a,
      )
