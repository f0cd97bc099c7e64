-- ===== src/Wire/Codec.antt =====
-- What it is for a reader to invert a writer, in both directions, and the rules by which the
-- messages' codecs are put together.
use mathlib.Core.Path.{subst}
use mathlib.Core.List.{append_assoc}
use agent_share.Prelude.{
  ℕ, zero, suc, ◌^◌, ◌<◌, ◌≡◌, refl, ap, sym, ◌∙◌, List, [], ◌∷◌, ◌++◌, arith, true, Result, ok,
  err, truncated, length, take, drop, All, ltb, leb, Bool-cases, inl, inr, if◌then◌else◌, tests,
  All-take, All-drop, All-append, take-append-drop, take-length_append, drop-length_append,
  length-take_le, length-append, >>=-eq-ok,
}
use agent_share.Prelude
use agent_share.Wire.Words.{
  IsByte, le_bytes, from_le, length-le_bytes, le_bytes-IsByte, le_bytes-from_le, from_le-le_bytes,
  from_le-Fits, Fits, IsU16, IsU32, IsU64, u16-Fits, u32-Fits, u64-Fits, Fits-IsU16, Fits-IsU32,
  Fits-IsU64, ℤ, IsI64, to_bits, of_bits, of_bits-to_bits, to_bits-of_bits, to_bits-IsU64,
  of_bits-IsI64,
}
use agent_share.Wire.Utf8.{is_utf8}
use agent_share.Wire.Cursor.{
  Read, ◌>>=◌, finish, take_bytes, take_u16, take_u32, take_u64, take_i64, take_path, from_utf8,
  take_many, take_list,
}
use agent_share.Wire.Writer.{Write, write_many, write_list, write_path}

-- `b` was read as `a`: it is what the writer makes of `a`, and then `rest`.
pub record Came {A : Type 0} (write : Write A) (Ok : A → Type 0) (b : List ℕ) (a : A)
    (rest : List ℕ) : Type 0 where
  pub wire : List ℕ
  pub wrote : write a ≡ ok wire
  pub split : b ≡ wire ++ rest
  pub good : Ok a
  pub bytes : All IsByte rest

pub record Codec {A : Type 0} (read : Read A) (write : Write A) (Ok : A → Type 0) : Type 0 where
  pub reads : (a : A) (w rest : List ℕ) → Ok a → write a ≡ ok w → read (w ++ rest) ≡ ok (a, rest)
  pub writes :
      (b : List ℕ) (a : A) (rest : List ℕ)
      → All IsByte b
      → read b ≡ ok (a, rest)
      → Came write Ok b a rest
  pub bytes : (a : A) (w : List ℕ) → Ok a → write a ≡ ok w → All IsByte w

-- A bind that succeeded, taken apart.
pub bind-eq-ok :
    {A B : Type 0} (m : Read A) (f : A → Read B) (b : List ℕ) {c : B} {rest : List ℕ}
    → (m >>= f) b ≡ ok (c, rest)
    → (a : A) × (r : List ℕ) × (m b ≡ ok (a, r)) × (f a r ≡ ok (c, rest))
bind-eq-ok {A} m f b {c} {rest} h = go (m b) refl h
  where
    go :
        (x : Result (A × List ℕ))
        → m b ≡ x
        → (elim x [ err e ↦ err e | ok (a, r) ↦ f a r ]) ≡ ok (c, rest)
        → (a : A) × (r : List ℕ) × (m b ≡ ok (a, r)) × (f a r ≡ ok (c, rest))
    go (ok (a, r)) e k = (a, r, e, k)
    go (err e) p k = cc

-- Two reads in a row took two pieces off the front.
pub join : {b r : List ℕ} (w v rest : List ℕ) → b ≡ w ++ r → r ≡ v ++ rest → b ≡ (w ++ v) ++ rest
join w v rest p q = p ∙ ap (λ x. w ++ x) q ∙ sym (append_assoc w v rest)

pub pure-eq-ok :
    {A : Type 0} {a c : A} (b : List ℕ) {rest : List ℕ}
    → ◌≡◌ {A = Result (A × List ℕ)} (ok (a, b)) (ok (c, rest))
    → (a ≡ c) × (b ≡ rest)
pure-eq-ok b e = (cc, cc)

-- `finish` accepts a read that left nothing.
pub finish-eq-ok : {A : Type 0} (r : Result (A × List ℕ)) (a : A) → finish r ≡ ok a → r ≡ ok (a, [])
finish-eq-ok (ok (a, [])) c e = cc
finish-eq-ok (ok (a, b ∷ bs)) c e = cc
finish-eq-ok (err x) c e = cc

pub bind-reads :
    {A B : Type 0} (m : Read A) (f : A → Read B) (b : List ℕ) (a : A) (r : List ℕ)
    → m b ≡ ok (a, r)
    → (m >>= f) b ≡ f a r
bind-reads m f b a r h = rw (h, ◌>>=◌)

-- Fixed-width reads.
pub take_bytes-append :
    (n : ℕ) (w rest : List ℕ) → length w ≡ n → take_bytes n (w ++ rest) ≡ ok (w, rest)
unfolding take_bytes
take_bytes-append n w rest e =
    subst (λ k. take_bytes k (w ++ rest) ≡ ok (w, rest)) e
      (rw (Prelude.le→leb (length w) (length (w ++ rest)) (omega (arith, length-append w rest)))
        (rw (take-length_append w rest) (rw (drop-length_append w rest))))

take_bytes_split :
    (n : ℕ) (b w rest : List ℕ)
    → take_bytes n b ≡ ok (w, rest)
    → (b ≡ w ++ rest) × (length w ≡ n) × (w ≡ take n b) × (rest ≡ drop n b)
unfolding take_bytes
take_bytes_split n b w rest h = elim (Bool-cases (leb n (length b))) [
  | inl fits ↦
      let e : ◌≡◌ {A = Result (List ℕ × List ℕ)} (ok (take n b, drop n b)) (ok (w, rest)) =
        rw fits at h in
      let wt : w ≡ take n b = cc in
      let rt : rest ≡ drop n b = cc in
      (
        subst (λ x. b ≡ x ++ rest) (sym wt)
            (subst (λ x. b ≡ take n b ++ x) (sym rt) (sym (take-append-drop n b))),
        subst (λ x. length x ≡ n) (sym wt) (length-take_le n b (Prelude.leb→le n (length b) fits)),
        wt,
        rt,
      )
  | inr short ↦
      let e : ◌≡◌ {A = Result (List ℕ × List ℕ)} (err truncated) (ok (w, rest)) = rw short at h in
      cc
]

-- A fixed number of bytes, such as a `[u8; 32]`.
abbrev pub IsArray : ℕ → List ℕ → Type 0
IsArray n w = All IsByte w × (length w ≡ n)

pub IsArray-Codec : (n : ℕ) → Codec (take_bytes n) ok (IsArray n)
IsArray-Codec n = record {
  reads =
      λ a w rest good e. let same : a ≡ w = cc in rw (← same) (take_bytes-append n a rest good.1);
  writes = λ b a rest hb e.
      let (split, len, front, back) = take_bytes_split n b a rest e in
      record {
        wire = a;
        wrote = refl;
        split = split;
        good = (subst (All IsByte) (sym front) (All-take IsByte n b hb), len);
        bytes = subst (All IsByte) (sym back) (All-drop IsByte n b hb);
      };
  bytes = λ a w good e. let same : a ≡ w = cc in subst (All IsByte) same good.0;
}

-- A word of `n` bytes.
abbrev word : ℕ → Read ℕ
word n = take_bytes n >>= λ raw b. ok (from_le raw, b)

abbrev word_write : ℕ → Write ℕ
word_write n v = ok (le_bytes n v)

word-Codec : (n : ℕ) → Codec (word n) (word_write n) (Fits n)
word-Codec n = record {
  reads = λ a w rest good e.
      let same : le_bytes n a ≡ w = cc in
      subst (λ x. word n (x ++ rest) ≡ ok (a, rest)) same
        (bind-reads (take_bytes n) _ (le_bytes n a ++ rest) (le_bytes n a) rest
            (take_bytes-append n (le_bytes n a) rest (length-le_bytes n a))
          ∙ rw (from_le-le_bytes n a good));
  writes = λ b a rest hb e.
      let (raw, r, taken, value) = bind-eq-ok (take_bytes n) _ b e in
      let (split, len, front, back) = take_bytes_split n b raw r taken in
      let raw-IsByte : All IsByte raw = subst (All IsByte) (sym front) (All-take IsByte n b hb) in
      let same : from_le raw ≡ a = cc in
      let left : r ≡ rest = cc in
      record {
        wire = raw;
        wrote = ap ok (
            subst (λ x. le_bytes n x ≡ raw) same
              (subst (λ k. le_bytes k (from_le raw) ≡ raw) len (le_bytes-from_le raw raw-IsByte)));
        split = subst (λ x. b ≡ raw ++ x) left split;
        good =
            subst (Fits n) same
              (subst (λ k. Fits k (from_le raw)) len (from_le-Fits raw raw-IsByte));
        bytes = subst (All IsByte) (sym back ∙ left) (All-drop IsByte n b hb);
      };
  bytes = λ a w good e.
      let same : le_bytes n a ≡ w = cc in subst (All IsByte) same (le_bytes-IsByte n a);
}

-- A codec under an equivalent range.
weaken :
    {A : Type 0} {read : Read A} {write : Write A} {P Q : A → Type 0}
    → ((a : A) → Q a → P a)
    → ((a : A) → P a → Q a)
    → Codec read write P
    → Codec read write Q
weaken to from c = record {
  reads = λ a w rest good e. c.reads a w rest (to a good) e;
  writes = λ b a rest hb e.
      let k = c.writes b a rest hb e in
      record {
        wire = k.wire;
        wrote = k.wrote;
        split = k.split;
        good = from a k.good;
        bytes = k.bytes;
      };
  bytes = λ a w good e. c.bytes a w (to a good) e;
}

abbrev pub write_u16 : Write ℕ
write_u16 n = ok (le_bytes 2 n)

abbrev pub write_u32 : Write ℕ
write_u32 n = ok (le_bytes 4 n)

abbrev pub write_u64 : Write ℕ
write_u64 n = ok (le_bytes 8 n)

abbrev pub write_i64 : Write ℤ
write_i64 z = ok (le_bytes 8 (to_bits z))

pub IsU16-Codec : Codec take_u16 write_u16 IsU16
unfolding take_u16
IsU16-Codec = weaken u16-Fits Fits-IsU16 (word-Codec 2)

pub IsU32-Codec : Codec take_u32 write_u32 IsU32
unfolding take_u32
IsU32-Codec = weaken u32-Fits Fits-IsU32 (word-Codec 4)

pub IsU64-Codec : Codec take_u64 write_u64 IsU64
unfolding take_u64
IsU64-Codec = weaken u64-Fits Fits-IsU64 (word-Codec 8)

pub IsI64-Codec : Codec take_i64 write_i64 IsI64
unfolding take_i64 take_u64
IsI64-Codec = record {
  reads = λ z w rest good e.
      let u = IsU64-Codec.reads (to_bits z) w rest (to_bits-IsU64 z good) e in
      let (raw, r, taken, value) = bind-eq-ok (take_bytes 8) _ (w ++ rest) u in
      let same : from_le raw ≡ to_bits z = cc in
      let left : r ≡ rest = cc in
      bind-reads (take_bytes 8) _ (w ++ rest) raw r taken
      ∙ rw (same, left) (rw (of_bits-to_bits z good));
  writes = λ b z rest hb e.
      let (raw, r, taken, value) = bind-eq-ok (take_bytes 8) _ b e in
      let same : of_bits (from_le raw) ≡ z = cc in
      let left : r ≡ rest = cc in
      let k =
        IsU64-Codec.writes b (from_le raw) rest hb
          (bind-reads (take_bytes 8) _ b raw r taken ∙ rw left) in
      let back : to_bits z ≡ from_le raw =
        subst (λ x. to_bits x ≡ from_le raw) same (to_bits-of_bits (from_le raw) k.good) in
      record {
        wire = k.wire;
        wrote = rw back k.wrote;
        split = k.split;
        good = subst IsI64 same (of_bits-IsI64 (from_le raw) k.good);
        bytes = k.bytes;
      };
  bytes = λ z w good e. IsU64-Codec.bytes (to_bits z) w (to_bits-IsU64 z good) e;
}

-- A path that a `String` can hold: bytes that are well-formed UTF-8.
pub record IsText (path : List ℕ) : Type 0 where
  pub of_bytes : All IsByte path
  pub utf8 : is_utf8 path ≡ true

write_path-eq-ok :
    (path w : List ℕ)
    → write_path path ≡ ok w
    → (length path < 2 ^ 16) × (le_bytes 2 (length path) ++ path ≡ w)
unfolding write_path
write_path-eq-ok path w e = elim (Bool-cases (ltb (length path) (2 ^ 16))) [
  | inl fits ↦
      let k : ◌≡◌ {A = Result (List ℕ)} (ok (le_bytes 2 (length path) ++ path)) (ok w) =
        rw fits at e in
      (Prelude.ltb→lt _ _ fits, cc)
  | inr long ↦ let k : ◌≡◌ {A = Result (List ℕ)} (err Prelude.panicked) (ok w) = rw long at e in cc
]

from_utf8-eq-ok :
    (raw b path rest : List ℕ)
    → from_utf8 raw b ≡ ok (path, rest)
    → (is_utf8 raw ≡ true) × (raw ≡ path) × (b ≡ rest)
unfolding from_utf8
from_utf8-eq-ok raw b path rest e = ground arith

pub path-Codec : Codec take_path write_path IsText
unfolding take_path
path-Codec = record {
  reads = λ path w rest good e.
      let (short, same) = write_path-eq-ok path w e in
      subst (λ x. take_path (x ++ rest) ≡ ok (path, rest)) same
        (rw (append_assoc (le_bytes 2 (length path)) path rest) (
          bind-reads take_u16 _ (le_bytes 2 (length path) ++ (path ++ rest)) (length path)
            (path ++ rest) (IsU16-Codec.reads (length path) _ (path ++ rest) short refl)
          ∙ bind-reads (take_bytes (length path)) _ (path ++ rest) path rest
              (take_bytes-append (length path) path rest refl)
          ∙ unfold from_utf8 in rw good.utf8));
  writes = λ b path rest hb e.
      let (len, r, counted, more) = bind-eq-ok take_u16 _ b e in
      let k = IsU16-Codec.writes b len r hb counted in
      let (raw, r', taken, text) = bind-eq-ok (take_bytes len) _ r more in
      let (split, long, front, back) = take_bytes_split len r raw r' taken in
      let (utf8, same, left) = from_utf8-eq-ok raw r' path rest text in
      let size : length path ≡ len = subst (λ x. length x ≡ len) same long in
      record {
        wire = le_bytes 2 (length path) ++ path;
        wrote =
            unfold write_path in
            rw (Prelude.lt→ltb (length path) (2 ^ 16) (omega (arith, size, k.good)));
        split =
            cc (k.split, k.wrote, split, size, append_assoc (le_bytes 2 (length path)) path rest);
        good = record {
          of_bytes = subst (All IsByte) (sym front ∙ same) (All-take IsByte len r k.bytes);
          utf8 = subst (λ x. is_utf8 x ≡ true) same utf8;
        };
        bytes = subst (All IsByte) (sym back ∙ left) (All-drop IsByte len r k.bytes);
      };
  bytes = λ path w good e.
      let (short, same) = write_path-eq-ok path w e in
      subst (All IsByte) same (
        All-append IsByte (le_bytes 2 (length path)) path (le_bytes-IsByte 2 (length path))
          good.of_bytes);
}

write_many-cons :
    {A : Type 0} (e : Write A) (x : A) (xs : List A) {w : List ℕ}
    → write_many e (x ∷ xs) ≡ ok w
    → (v : List ℕ) × (vs : List ℕ) × (e x ≡ ok v) × (write_many e xs ≡ ok vs) × (v ++ vs ≡ w)
unfolding write_many
write_many-cons e x xs {w} h =
    let (v, one, more) = >>=-eq-ok (e x) _ h in
    let (vs, rest, same) = >>=-eq-ok (write_many e xs) _ more in (v, vs, one, rest, cc)

take_many_step :
    {A : Type 0} (read : Read A) (n : ℕ) (b : List ℕ) (x : A) (r : List ℕ) (xs : List A)
    (rest : List ℕ)
    → read b ≡ ok (x, r)
    → take_many read n r ≡ ok (xs, rest)
    → take_many read (suc n) b ≡ ok (x ∷ xs, rest)
unfolding take_many
take_many_step read n b x r xs rest one more = rw (one, take_many) (rw (more, take_many))

take_many-cons :
    {A : Type 0} (read : Read A) (n : ℕ) (b : List ℕ) {ys : List A} {rest : List ℕ}
    → take_many read (suc n) b ≡ ok (ys, rest)
    → (x : A) × (r : List ℕ) × (xs : List A) × (read b ≡ ok (x, r))
      × (take_many read n r ≡ ok (xs, rest))
      × (ys ≡ x ∷ xs)
unfolding take_many
take_many-cons {A} read n b {ys} {rest} h =
    let (x, r, one, more) =
      bind-eq-ok read
        (λ x r. elim (take_many read n r) [ err e ↦ err e | ok (xs, rest') ↦ ok (x ∷ xs, rest') ]) b
        h in
    let (xs, r', two, same) =
      bind-eq-ok (take_many read n) (λ xs rest'. ok (x ∷ xs, rest')) r more in
    (x, r, xs, one, two ∙ cc, cc)

write_many_step :
    {A : Type 0} (e : Write A) (x : A) (xs : List A) (v vs : List ℕ)
    → e x ≡ ok v
    → write_many e xs ≡ ok vs
    → write_many e (x ∷ xs) ≡ ok (v ++ vs)
unfolding write_many
write_many_step e x xs v vs one more = rw one (rw more)

pub write_list-eq-ok :
    {A : Type 0} (e : Write A) (xs : List A) (w : List ℕ)
    → write_list e xs ≡ ok w
    → (ws : List ℕ) × (length xs < 2 ^ 32)
      × (write_many e xs ≡ ok ws)
      × (le_bytes 4 (length xs) ++ ws ≡ w)
unfolding write_list
write_list-eq-ok e xs w h = elim (Bool-cases (ltb (length xs) (2 ^ 32))) [
  | inl fits ↦
      let k : Prelude.◌>>=◌ (write_many e xs) (λ ws. ok (le_bytes 4 (length xs) ++ ws)) ≡ ok w =
        rw fits at h in
      let (ws, more, same) = >>=-eq-ok (write_many e xs) _ k in
      (ws, Prelude.ltb→lt _ _ fits, more, cc)
  | inr long ↦ let k : ◌≡◌ {A = Result (List ℕ)} (err Prelude.panicked) (ok w) = rw long at h in cc
]

-- The loops `for _ in 0..count` and `for item in &list`.
module _ {A : Type 0} {read : Read A} {write : Write A} {P : A → Type 0}
    (c : Codec read write P) where
  many-reads :
      (xs : List A) (w rest : List ℕ)
      → All P xs
      → write_many write xs ≡ ok w
      → take_many read (length xs) (w ++ rest) ≡ ok (xs, rest)
  many-reads [] w rest good h =
      unfold take_many write_many in (let e : ◌≡◌ {A = List ℕ} [] w = cc in rw (← e))
  many-reads (x ∷ xs) w rest good h =
      let (v, vs, one, more, same) = write_many-cons write x xs h in
      subst (λ u. take_many read (suc (length xs)) (u ++ rest) ≡ ok (x ∷ xs, rest)) same
        (rw (append_assoc v vs rest) (
          take_many_step read (length xs) (v ++ (vs ++ rest)) x (vs ++ rest) xs rest
            (c.reads x v (vs ++ rest) good.0 one) (many-reads xs vs rest good.1 more)))

  many-writes :
      (n : ℕ) (b : List ℕ) (xs : List A) (rest : List ℕ)
      → All IsByte b
      → take_many read n b ≡ ok (xs, rest)
      → Came (write_many write) (λ ys. All P ys × (length ys ≡ n)) b xs rest
  many-writes zero b xs rest hb h =
      unfold take_many write_many in
      (let e : ◌≡◌ {A = List A} [] xs = cc in
        let f : b ≡ rest = cc in
        record {
          wire = [];
          wrote = rw (← e);
          split = f;
          good = subst (λ ys. All P ys × (length ys ≡ 0)) e (tt, refl);
          bytes = subst (All IsByte) f hb;
        })
  many-writes (suc n) b ys rest hb h =
      let (x, r, xs, one, more, same) = take_many-cons read n b h in
      let k = c.writes b x r hb one in
      let l = many-writes n r xs rest k.bytes more in
      record {
        wire = k.wire ++ l.wire;
        wrote =
            subst (λ zs. write_many write zs ≡ ok (k.wire ++ l.wire)) (sym same)
              (write_many_step write x xs k.wire l.wire k.wrote l.wrote);
        split = cc (k.split, l.split, append_assoc k.wire l.wire rest);
        good =
            subst (λ zs. All P zs × (length zs ≡ suc n)) (sym same)
              ((k.good, l.good.0), ap suc l.good.1);
        bytes = l.bytes;
      }

  many-bytes : (xs : List A) (w : List ℕ) → All P xs → write_many write xs ≡ ok w → All IsByte w
  many-bytes [] w good h =
      unfold write_many in (let e : ◌≡◌ {A = List ℕ} [] w = cc in subst (All IsByte) e tt)
  many-bytes (x ∷ xs) w good h =
      let (v, vs, one, more, same) = write_many-cons write x xs h in
      subst (All IsByte) same
        (All-append IsByte v vs (c.bytes x v good.0 one) (many-bytes xs vs good.1 more))

  pub list-Codec : Codec (take_list read) (write_list write) (All P)
  unfolding take_list
  list-Codec = record {
    reads = λ xs w rest good e.
        let (ws, short, more, same) = write_list-eq-ok write xs w e in
        subst (λ x. take_list read (x ++ rest) ≡ ok (xs, rest)) same
          (rw (append_assoc (le_bytes 4 (length xs)) ws rest) (
            bind-reads take_u32 _ (le_bytes 4 (length xs) ++ (ws ++ rest)) (length xs) (ws ++ rest)
              (IsU32-Codec.reads (length xs) _ (ws ++ rest) short refl)
            ∙ many-reads xs ws rest good more));
    writes = λ b xs rest hb e.
        let (n, r, counted, more) = bind-eq-ok take_u32 _ b e in
        let k = IsU32-Codec.writes b n r hb counted in
        let l = many-writes n r xs rest k.bytes more in
        let short : length xs < 2 ^ 32 = omega (arith, l.good.1, k.good) in
        record {
          wire = le_bytes 4 (length xs) ++ l.wire;
          wrote = unfold write_list in rw (Prelude.lt→ltb _ _ short) (rw l.wrote);
          split = cc (
            k.split,
            k.wrote,
            l.split,
            l.good.1,
            append_assoc (le_bytes 4 (length xs)) l.wire rest,
          );
          good = l.good.0;
          bytes = l.bytes;
        };
    bytes = λ xs w good e.
        let (ws, short, more, same) = write_list-eq-ok write xs w e in
        subst (All IsByte) same (
          All-append IsByte (le_bytes 4 (length xs)) ws (le_bytes-IsByte 4 (length xs))
            (many-bytes xs ws good more));
  }
