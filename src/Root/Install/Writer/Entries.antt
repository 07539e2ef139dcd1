-- ===== src/Root/Install/Writer/Entries.antt =====
-- The entries that `Encode` wrote, read by `Parse`, and the files that the handler has then.
use go_casclib.Common.{
  ℕ, ◌+◌, ◌^◌, ◌≤◌, ◌<◌, ◌≡◌, refl, ap, ◌∙◌, sym, subst, arith, le→leb, lt→ltb, List, [], ◌∷◌, ◌++◌,
  ok, length, length-append, length-take, take, append_assoc, append-nil, All, false, Option, some,
  map, lookup,
}
use go_casclib.Binary.{
  Bytes, padded, slice, slice-append, Lacks, be_uint32_at, be_uint32_at-put, put_be_uint32,
  bytes_eq, bytes_eq_iff,
}
use go_casclib.Keys.{CKeyEntry, root_entry, invalid_id}
use go_casclib.Listfile.{hash_normalized}
use go_casclib.Root.Install.{
  Handler, read_name, parse_entry, parse_entries, add_file, lookup_by_name,
}
use go_casclib.Root.Install.Writer.{Entry, entry_record, entry_bytes}
use go_casclib.Root.Install.Writer.Parts.{
  read_name-written, with_name, with_name_eq, length-with_name,
}

-- An entry that a manifest can hold
pub record Fits (e : Entry) : Type 0 where
  pub name_lacks : Lacks 0 e.name
  pub ckey_size : length e.ckey ≡ 16
  pub size_fits : e.content_size < 2 ^ 32

parse_entry_of :
    (hash_size off place size : ℕ) (name key bs : Bytes)
    → read_name off bs ≡ ok (name, place)
    → place + hash_size + 4 ≤ length bs
    → slice place hash_size bs ≡ ok key
    → be_uint32_at (place + hash_size) bs ≡ ok size
    → parse_entry hash_size off bs
      ≡ ok (record {
        entry_name = name;
        entry_ckey = padded 16 key;
        entry_size = size;
        behind = place + hash_size + 4;
      })
unfolding parse_entry
parse_entry_of hash_size off place size name key bs named fits cut sized =
    let inside = le→leb (place + hash_size + 4) (length bs) fits in rw (named, inside, cut, sized)

length-key : (n : ℕ) (ckey : Bytes) → length ckey ≡ 16 → n ≤ 16 → length (take n ckey) ≡ n
length-key n ckey size small = omega (arith, length-take n ckey)

parse_entry-written :
    (e : Entry) (hash_size off : ℕ) (pre rest : Bytes)
    → length pre ≡ off
    → Fits e
    → hash_size ≤ 16
    → parse_entry hash_size off (pre ++ (entry_record hash_size e ++ rest))
      ≡ ok (record {
        entry_name = e.name;
        entry_ckey = padded 16 (take hash_size e.ckey);
        entry_size = e.content_size;
        behind = off + length e.name + 1 + hash_size + 4;
      })
parse_entry-written e hash_size off pre rest at_off fits small =
    let place = off + length e.name + 1 in
    let key = take hash_size e.ckey in
    let sized = put_be_uint32 e.content_size in
    let front = with_name off pre e.name at_off fits.name_lacks in
    let len = length-with_name off pre e.name at_off fits.name_lacks in
    let key_size = length-key hash_size e.ckey fits.ckey_size small in
    let inner : entry_record hash_size e ++ rest ≡ e.name ++ (0 ∷ (key ++ (sized ++ rest))) =
      append_assoc e.name (0 ∷ (key ++ sized)) rest
      ∙ ap (λ (b : Bytes). e.name ++ (0 ∷ b)) (append_assoc key sized rest) in
    let same : front ++ (key ++ (sized ++ rest)) ≡ pre ++ (entry_record hash_size e ++ rest) =
      with_name_eq off pre e.name at_off fits.name_lacks (key ++ (sized ++ rest))
      ∙ ap (◌++◌ pre) (sym inner) in
    let e1 = read_name-written off pre e.name at_off fits.name_lacks (key ++ (sized ++ rest)) in
    let fit : place + hash_size + 4 ≤ length (front ++ (key ++ (sized ++ rest))) =
      omega
        (arith, length-append front (key ++ (sized ++ rest)), length-append key (sized ++ rest)) in
    let e2 = slice-append place hash_size front key (sized ++ rest) len key_size in
    let e3 : be_uint32_at (place + hash_size) (front ++ (key ++ (sized ++ rest)))
        ≡ ok e.content_size =
      rw (← append_assoc front key (sized ++ rest)) (
        be_uint32_at-put (place + hash_size) (front ++ key) rest e.content_size
          (omega (arith, length-append front key)) fits.size_fits) in
    parse_entry_of hash_size off place e.content_size e.name key
      (pre ++ (entry_record hash_size e ++ rest))
      (subst (λ (b : Bytes). read_name off (pre ++ b) ≡ ok (e.name, place)) (sym inner) e1)
      (subst (λ (b : Bytes). place + hash_size + 4 ≤ length b) same fit)
      (subst (λ (b : Bytes). slice place hash_size b ≡ ok key) same e2)
      (subst (λ (b : Bytes). be_uint32_at (place + hash_size) b ≡ ok e.content_size) same e3)

-- The file of the handler for an entry that was written: the key has the bytes that the size of
-- the hash leaves of it.
abbrev pub loaded : ℕ → Entry → CKeyEntry
loaded hash_size e =
    root_entry (padded 16 (take hash_size e.ckey)) (hash_normalized e.name) e.content_size
      invalid_id 0 0

pub load_all : ℕ → List Entry → Handler → Handler
load_all hash_size [] h = h
load_all hash_size (e ∷ es) h =
    load_all hash_size es (add_file e.name (padded 16 (take hash_size e.ckey)) e.content_size h)

length-entry_record :
    (e : Entry) (hash_size : ℕ)
    → Fits e
    → hash_size ≤ 16
    → length (entry_record hash_size e) ≡ length e.name + 1 + hash_size + 4
length-entry_record e hash_size fits small =
    let key_size = length-key hash_size e.ckey fits.ckey_size small in
    omega (
      arith,
      length-append e.name (0 ∷ (take hash_size e.ckey ++ put_be_uint32 e.content_size)),
      length-append (take hash_size e.ckey) (put_be_uint32 e.content_size),
    )

add_file-hash_size :
    (name ckey : Bytes) (size : ℕ) (h : Handler)
    → (add_file name ckey size h).hash_size ≡ h.hash_size
unfolding add_file
add_file-hash_size name ckey size h = refl

pub parse_entries-written :
    (es : List Entry) (hash_size off : ℕ) (pre : Bytes) (h : Handler)
    → length pre ≡ off
    → All Fits es
    → hash_size ≤ 16
    → h.hash_size ≡ hash_size
    → parse_entries (length es) off (pre ++ entry_bytes hash_size es) h
      ≡ ok (load_all hash_size es h)
unfolding parse_entries load_all
parse_entries-written [] hash_size off pre h at_off fits small sized = refl
parse_entries-written (e ∷ es) hash_size off pre h at_off (f, fits) small sized =
    let others = entry_bytes hash_size es in
    let one = entry_record hash_size e in
    let size = length-entry_record e hash_size f small in
    let behind = off + length e.name + 1 + hash_size + 4 in
    let h2 = add_file e.name (padded 16 (take hash_size e.ckey)) e.content_size h in
    let more =
      lt→ltb off (length (pre ++ (one ++ others)))
        (omega (arith, length-append pre (one ++ others), length-append one others)) in
    let first =
      ap (λ (n : ℕ). parse_entry n off (pre ++ (one ++ others))) sized
      ∙ parse_entry-written e hash_size off pre others at_off f small in
    let rest : parse_entries (length es) behind (pre ++ (one ++ others)) h2
        ≡ ok (load_all hash_size es h2) =
      rw (← append_assoc pre one others) (
        parse_entries-written es hash_size behind (pre ++ one) h2
          (omega (arith, length-append pre one)) fits small
          (add_file-hash_size e.name _ e.content_size h ∙ sized)) in
    rw (more, first) rest

-- No two entries have the same name.
abbrev pub Names : List Entry → Type 0
Names [] = Unit
Names (e ∷ es) = All (λ later. bytes_eq later.name e.name ≡ false) es × Names es

abbrev pub FoundIn : ℕ → Handler → Entry → Type 0
FoundIn hash_size h e = lookup_by_name h e.name ≡ some (loaded hash_size e)

-- The lookup of a name among the files, which comes first.
abbrev file : Bytes → Handler → Option CKeyEntry
file name h = lookup bytes_eq name h.files

load_all_keeps :
    (es : List Entry) (hash_size : ℕ) (name : Bytes) (h : Handler)
    → All (λ later. bytes_eq later.name name ≡ false) es
    → file name (load_all hash_size es h) ≡ file name h
unfolding load_all add_file
load_all_keeps [] hash_size name h other = refl
load_all_keeps (e ∷ es) hash_size name h (o, other) =
    load_all_keeps es hash_size name
      (add_file e.name (padded 16 (take hash_size e.ckey)) e.content_size h) other
    ∙ rw o

file-add_file :
    (e : Entry) (hash_size : ℕ) (h : Handler)
    → file e.name (add_file e.name (padded 16 (take hash_size e.ckey)) e.content_size h)
      ≡ some (loaded hash_size e)
unfolding add_file
file-add_file e hash_size h = let same = (bytes_eq_iff e.name e.name).1 refl in rw same

lookup_by_name-file :
    (name : Bytes) (entry : CKeyEntry) (h : Handler)
    → file name h ≡ some entry
    → lookup_by_name h name ≡ some entry
unfolding lookup_by_name
lookup_by_name-file name entry h e = rw e

pub load_all-FoundIn :
    (es : List Entry) (hash_size : ℕ) (h : Handler)
    → Names es
    → All (FoundIn hash_size (load_all hash_size es h)) es
unfolding load_all
load_all-FoundIn [] hash_size h names = tt
load_all-FoundIn (e ∷ es) hash_size h (other, names) =
    let h2 = add_file e.name (padded 16 (take hash_size e.ckey)) e.content_size h in
    (
      lookup_by_name-file e.name (loaded hash_size e) (load_all hash_size es h2)
          (load_all_keeps es hash_size e.name h2 other ∙ file-add_file e hash_size h),
      load_all-FoundIn es hash_size h2 names,
    )

-- The list of all entries, behind those that were there
pub load_all-all :
    (es : List Entry) (hash_size : ℕ) (h : Handler)
    → (load_all hash_size es h).all ≡ h.all ++ map (λ e. (e.name, loaded hash_size e)) es
unfolding load_all add_file
load_all-all [] hash_size h = sym (append-nil h.all)
load_all-all (e ∷ es) hash_size h =
    load_all-all es hash_size (add_file e.name (padded 16 (take hash_size e.ckey)) e.content_size h)
    ∙ append_assoc h.all ((e.name, loaded hash_size e) ∷ []) _

pub load_all-tags :
    (es : List Entry) (hash_size : ℕ) (h : Handler) → (load_all hash_size es h).tags ≡ h.tags
unfolding load_all add_file
load_all-tags [] hash_size h = refl
load_all-tags (e ∷ es) hash_size h =
    load_all-tags es hash_size
      (add_file e.name (padded 16 (take hash_size e.ckey)) e.content_size h)
