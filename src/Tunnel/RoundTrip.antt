-- ===== src/Tunnel/RoundTrip.antt =====
-- What a recording holds can be read back.
use sshportal.Base.{
  ℕ, zero, suc, ◌+◌, ◌*◌, ◌/◌, ◌%◌, ◌^◌, ◌<◌, ◌≡◌, refl, sym, ap, ◌∙◌, some, List, [], ◌∷◌, ◌++◌,
  take, drop, length, length-append, take-append, false, All, ltb, arith,
}
use mathlib.Core.List.{append_assoc, append-nil}
use sshportal.Models.{Bytes}
use sshportal.Tunnel.{
  little_endian, seconds, microseconds, write_header, separator, record_of, tunnel_write,
}
use sshportal.Tunnel.Reader.{read_number, Entry, read_entry, read_log}

power : (k : ℕ) → 256 ^ suc k ≡ 256 * 256 ^ k
power k = omega arith

halved : (k n : ℕ) → n < 256 ^ suc k → n / 256 < 256 ^ k
halved k n h = omega (arith, power k)

pub read_number-little_endian :
    (k n : ℕ) (rest : Bytes)
    → n < 256 ^ k
    → read_number k (little_endian k n ++ rest) ≡ some (n, rest)
unfolding read_number little_endian
read_number-little_endian zero n rest h =
    let none_left : 0 ≡ n = omega arith in ap (λ m. some (m, rest)) none_left
read_number-little_endian (suc k) n rest h =
    let parts : n % 256 + 256 * (n / 256) ≡ n = omega arith in
    rw (read_number-little_endian k (n / 256) rest (halved k n h)) (ap (λ m. some (m, rest)) parts)

module _ {A : Type 0} where
  drop-append : (l m : List A) → drop (length l) (l ++ m) ≡ m
  drop-append [] m = refl
  drop-append (x ∷ l) m = drop-append l m

  covered : (l m : List A) → ltb (length (l ++ m)) (length l) ≡ false
  covered l m = ground (arith, length-append l m)

-- an entry as Write means it, and what bounds it
abbrev pub entry : Bytes → ℕ → Bytes → Entry
entry host now written = record {
  sec = seconds now;
  usec = microseconds now;
  text = (host ++ separator) ++ written;
}

abbrev pub Fits : ℕ → Bytes → ℕ → Bytes → Type 0
Fits width host now written =
    (seconds now < 256 ^ 4)
    × (microseconds now < 256 ^ width)
    × (length written + length (host ++ separator) < 256 ^ 4)

shape :
    (width : ℕ) (host : Bytes) (now : ℕ) (written rest : Bytes)
    → record_of width host now written ++ rest
      ≡ little_endian 4 (seconds now)
        ++ (little_endian width (microseconds now)
            ++ (little_endian 4 (length written + length (host ++ separator))
                ++ (((host ++ separator) ++ written) ++ rest)))
unfolding record_of write_header
shape width host now written rest = simp append_assoc refl

counted :
    (host written : Bytes)
    → length written + length (host ++ separator) ≡ length ((host ++ separator) ++ written)
counted host written = omega (arith, length-append (host ++ separator) written)

taken :
    (text rest : Bytes) (n : ℕ)
    → n ≡ length text
    → (ltb (length (text ++ rest)) n ≡ false)
      × (take n (text ++ rest) ≡ text)
      × (drop n (text ++ rest) ≡ rest)
taken text rest n e = rw e (covered text rest, take-append text rest, drop-append text rest)

read_parts :
    (width : ℕ) (l l₁ l₂ l₃ : Bytes) (a b n : ℕ)
    → read_number 4 l ≡ some (a, l₁)
    → read_number width l₁ ≡ some (b, l₂)
    → read_number 4 l₂ ≡ some (n, l₃)
    → ltb (length l₃) n ≡ false
    → read_entry width l ≡ some (record { sec = a; usec = b; text = take n l₃ }, drop n l₃)
unfolding read_entry
read_parts width l l₁ l₂ l₃ a b n p q r t = ground arith

pub read_entry-record_of :
    (width : ℕ) (host : Bytes) (now : ℕ) (written rest : Bytes)
    → Fits width host now written
    → read_entry width (record_of width host now written ++ rest)
      ≡ some (entry host now written, rest)
read_entry-record_of width host now written rest (a, b, c) =
    let text = (host ++ separator) ++ written in
    let n = length written + length (host ++ separator) in
    let (t₀, t₁, t₂) = taken text rest n (counted host written) in
    let l₂ = little_endian 4 n ++ (text ++ rest) in
    let l₁ = little_endian width (microseconds now) ++ l₂ in
    ap (read_entry width) (shape width host now written rest)
    ∙ read_parts width (little_endian 4 (seconds now) ++ l₁) l₁ l₂ (text ++ rest) (seconds now)
        (microseconds now) n (read_number-little_endian 4 (seconds now) l₁ a)
        (read_number-little_endian width (microseconds now) l₂ b)
        (read_number-little_endian 4 n (text ++ rest) c) t₀
    ∙ ap (λ x. some x) (pair_path t₁ t₂)
  where
    pair_path :
        {t u r v : Bytes}
        → t ≡ u
        → r ≡ v
        → ◌≡◌ {A = Entry × Bytes}
            (record { sec = seconds now; usec = microseconds now; text = t }, r)
            (record { sec = seconds now; usec = microseconds now; text = u }, v)
    pair_path p q = λ i. (record { sec = seconds now; usec = microseconds now; text = p i }, q i)

-- one call of Write: which end of the tunnel, at what time, and what is written
pub record Chunk : Type 0 where
  pub host : Bytes
  pub now : ℕ
  pub written : Bytes

abbrev pub recording : ℕ → List Chunk → Bytes
recording width [] = []
recording width (c ∷ cs) = record_of width c.host c.now c.written ++ recording width cs

abbrev pub entries : List Chunk → List Entry
entries [] = []
entries (c ∷ cs) = entry c.host c.now c.written ∷ entries cs

starts :
    (width : ℕ) (host : Bytes) (now : ℕ) (written rest : Bytes)
    → (b : ℕ) × (l : Bytes) × (record_of width host now written ++ rest ≡ b ∷ l)
unfolding record_of write_header little_endian
starts width host now written rest = (_, _, refl)

next_entry :
    (width fuel b : ℕ) (l rest : Bytes) (e : Entry) (es : List Entry)
    → read_entry width (b ∷ l) ≡ some (e, rest)
    → read_log width fuel rest ≡ some es
    → read_log width (suc fuel) (b ∷ l) ≡ some (e ∷ es)
unfolding read_log
next_entry width fuel b l rest e es p q = ground arith

read-All :
    (width : ℕ) (chunks : List Chunk)
    → All (λ (c : Chunk). Fits width c.host c.now c.written) chunks
    → read_log width (length chunks) (recording width chunks) ≡ some (entries chunks)
unfolding read_log
read-All width [] h = refl
read-All width (c ∷ cs) (fits, h) =
    let rest = recording width cs in
    let (b, l, e) = starts width c.host c.now c.written rest in
    let first = read_entry-record_of width c.host c.now c.written rest fits in
    ap (read_log width (suc (length cs))) e
    ∙ next_entry width (length cs) b l rest (entry c.host c.now c.written) (entries cs)
        (ap (read_entry width) (sym e) ∙ first) (read-All width cs h)

module _ {C A : Type 0} (send : Bytes → C → A × C) (width : ℕ) where
  -- Write once for each chunk, on an empty file, with what has reached the channel
  abbrev pub write_all : List Chunk → Bytes × C → Bytes × C
  write_all [] s = s
  write_all (c ∷ cs) s =
      let r = tunnel_write (λ b l. l ++ b) send width c.host c.now c.written s in
      write_all cs (r.1, r.2)

  abbrev pub send_all : List Chunk → C → C
  send_all [] x = x
  send_all (c ∷ cs) x = send_all cs (send c.written x).1

  written-recording :
      (chunks : List Chunk) (l : Bytes) (x : C)
      → write_all chunks (l, x) ≡ (l ++ recording width chunks, send_all chunks x)
  unfolding tunnel_write
  written-recording [] l x = ap (λ r. (r, x)) (sym (append-nil l))
  written-recording (c ∷ cs) l x =
      let now = record_of width c.host c.now c.written in
      written-recording cs (l ++ now) (send c.written x).1
      ∙ ap (λ r. (r, send_all cs (send c.written x).1)) (append_assoc l now (recording width cs))

  -- What Write puts into the file of a connection, in calls one after the other at either end and of
  -- whatever bytes, is read back: the entries hold the times, and behind the name of the end the bytes
  -- that were written, in their order; and the channel has been sent these bytes and no others. The
  -- times and the lengths fit into the header: 32 bits, and the width that the platform has for
  -- microseconds.
  pub read_log-write_all :
      (chunks : List Chunk) (x : C)
      → All (λ (c : Chunk). Fits width c.host c.now c.written) chunks
      → (read_log width (length chunks) (write_all chunks ([], x)).0 ≡ some (entries chunks))
        × ((write_all chunks ([], x)).1 ≡ send_all chunks x)
  read_log-write_all chunks x h =
      let e = written-recording chunks [] x in
      (
        ap (λ (s : Bytes × C). read_log width (length chunks) s.0) e ∙ read-All width chunks h,
        ap (λ (s : Bytes × C). s.1) e,
      )

high_half : (n : ℕ) → n < 1000000 → little_endian 8 n ≡ little_endian 4 n ++ little_endian 4 0
unfolding little_endian
high_half n h =
    let nothing : n / 256 / 256 / 256 / 256 ≡ 0 = omega arith in
    ap
      (λ m.
        n % 256
        ∷ n / 256 % 256
        ∷ n / 256 / 256 % 256
        ∷ n / 256 / 256 / 256 % 256
        ∷ little_endian 4 m)
      nothing

-- Where a platform's microseconds have 64 bits, the file is no ttyrec file: a reader of that
-- format, with 32 bits for each field of the header, finds the time and then an entry of no bytes,
-- whatever was written, and goes on in the middle of the header.
pub ttyrec_misreads :
    (host : Bytes) (now : ℕ) (written rest : Bytes)
    → seconds now < 256 ^ 4
    → read_entry 4 (record_of 8 host now written ++ rest)
      ≡ some (
        record { sec = seconds now; usec = microseconds now; text = [] },
        little_endian 4 (length written + length (host ++ separator))
            ++ (((host ++ separator) ++ written) ++ rest),
      )
ttyrec_misreads host now written rest a =
    let text = (host ++ separator) ++ written in
    let l₃ = little_endian 4 (length written + length (host ++ separator)) ++ (text ++ rest) in
    let l₂ = little_endian 4 0 ++ l₃ in
    let l₁ = little_endian 4 (microseconds now) ++ l₂ in
    let wide = high_half (microseconds now) (omega arith) in
    let split : little_endian 8 (microseconds now) ++ l₃ ≡ l₁ =
      ap (λ w. w ++ l₃) wide
      ∙ append_assoc (little_endian 4 (microseconds now)) (little_endian 4 0) l₃ in
    ap (read_entry 4)
      (shape 8 host now written rest ∙ ap (λ l. little_endian 4 (seconds now) ++ l) split)
    ∙ read_parts 4 (little_endian 4 (seconds now) ++ l₁) l₁ l₂ l₃ (seconds now) (microseconds now) 0
        (read_number-little_endian 4 (seconds now) l₁ a)
        (read_number-little_endian 4 (microseconds now) l₂ (omega arith))
        (read_number-little_endian 4 0 l₃ (omega arith)) (ground arith)
