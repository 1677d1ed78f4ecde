-- ===== src/Channel/Pinning.antt =====
-- dynamicHostKey of pkg/bastion/ssh.go: the key of a host is stored when it is first seen. The row of
-- the host is the state.
use mathlib.Core.Path.{subst}
use sshportal.Base.{
  ℕ, ◌≡◌, ◌≢◌, refl, sym, ◌∙◌, Bool, true, false, ◌&&◌, Option, none, some, List, [], ◌∷◌, All, eqb,
  eqb_iff, if◌then◌else◌, List-cases, ◌⊎◌, inl, inr, Bool-cases, arith,
}
use sshportal.Models.{Bytes, Host}

pub data HostKeyError : Type 0 where
  not_saved mismatch : HostKeyError

-- bytes.Equal
abbrev pub same_bytes : Bytes → Bytes → Bool
same_bytes [] [] = true
same_bytes [] (y ∷ ys) = false
same_bytes (x ∷ xs) [] = false
same_bytes (x ∷ xs) (y ∷ ys) = eqb x y && same_bytes xs ys

-- the callback, given the key that the server shows and whether the update of the row succeeds
unfoldable pub dynamic_host_key : Host → Bytes → Bool → Host × Option HostKeyError
dynamic_host_key host key saved = elim host.host_key [
  | [] ↦ if saved then (record host { host_key = key }, none) else (host, some not_saved)
  | x ∷ xs ↦ if same_bytes (x ∷ xs) key then (host, none) else (host, some mismatch)
]

-- one connection after the other: the row at the end, and the keys that were accepted
abbrev keep : Bytes → Option HostKeyError → List Bytes → List Bytes
keep key none keys = key ∷ keys
keep key (some _) keys = keys

unfoldable pub connections : Host → List (Bytes × Bool) → Host × List Bytes
unfolding dynamic_host_key
connections host [] = (host, [])
connections host ((key, saved) ∷ offers) =
    let (host', e) = dynamic_host_key host key saved in
    let rest = connections host' offers in (rest.0, keep key e rest.1)

same_bytes_sound : (a b : Bytes) → same_bytes a b ≡ true → a ≡ b
same_bytes_sound [] [] h = refl
same_bytes_sound [] (y ∷ b) h = absurd cc
same_bytes_sound (x ∷ a) [] h = absurd cc
same_bytes_sound (x ∷ a) (y ∷ b) h = ground (arith, eqb_iff x y, same_bytes_sound a b)

-- all the connections accept the one key, and leave it stored
abbrev Settled : Bytes → Host → List (Bytes × Bool) → Type 0
Settled pin host offers =
    ((connections host offers).0.host_key ≡ pin) × All (λ k. k ≡ pin) (connections host offers).1

settled :
    (x : ℕ) (xs : Bytes) (host : Host) (offers : List (Bytes × Bool))
    → host.host_key ≡ x ∷ xs
    → Settled (x ∷ xs) host offers
unfolding connections
settled x xs host [] e = (e, tt)
settled x xs host ((key, saved) ∷ offers) e =
    let i = settled x xs host offers e in
    elim (Bool-cases (same_bytes (x ∷ xs) key)) [
      | inl h ↦ rw (e, dynamic_host_key, h) (i.0, (sym (same_bytes_sound (x ∷ xs) key h), i.1))
      | inr h ↦ rw (e, dynamic_host_key, h) i
    ]

abbrev pub Pinned : Host → List (Bytes × Bool) → Type 0
Pinned host offers =
    All (λ k. k ≡ (connections host offers).0.host_key) (connections host offers).1
    × ((host.host_key ≡ []) ⊎ ((connections host offers).0.host_key ≡ host.host_key))

Settled-All :
    (pin : Bytes) (host : Host) (offers : List (Bytes × Bool))
    → Settled pin host offers
    → All (λ k. k ≡ (connections host offers).0.host_key) (connections host offers).1
Settled-All pin host offers (e, h) =
    subst (λ p. All (λ k. k ≡ p) (connections host offers).1) (sym e) h

unpinned :
    (host : Host) (offers : List (Bytes × Bool))
    → host.host_key ≡ []
    → All (λ o. o.0 ≢ []) offers
    → All (λ k. k ≡ (connections host offers).0.host_key) (connections host offers).1
unfolding connections
unpinned host [] e full = tt
unpinned host (([], saved) ∷ offers) e full = absurd (full.0 refl)
unpinned host ((x ∷ xs, true) ∷ offers) e full =
    let h = settled x xs (record host { host_key = x ∷ xs }) offers refl in
    rw (e, dynamic_host_key) (sym h.0, Settled-All (x ∷ xs) _ offers h)
unpinned host ((x ∷ xs, false) ∷ offers) e full =
    rw (e, dynamic_host_key) (unpinned host offers e full.1)

-- Over any sequence of connections to a host, whose servers show keys that are not empty: all keys
-- that are accepted are the one that is stored at the end, also if some updates of the row fail; and
-- a key that was stored at the start is never replaced.
pub connections-Pinned :
    (host : Host) (offers : List (Bytes × Bool)) → All (λ o. o.0 ≢ []) offers → Pinned host offers
connections-Pinned host offers full = elim (List-cases host.host_key) [
  | inl e ↦ (unpinned host offers e full, inl e)
  | inr (x, xs, e) ↦
      let h = settled x xs host offers e in (Settled-All (x ∷ xs) host offers h, inr (h.0 ∙ sym e))
]
