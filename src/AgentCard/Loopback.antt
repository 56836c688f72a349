-- ===== src/AgentCard/Loopback.antt =====
-- daemon/src/AgentCard.cpp: the URLs of this machine, by their spelling, which `is_local_only_url`
-- recognizes.
use a2ad.Common.{
  ℕ, ◌≡◌, refl, ap, ◌∙◌, Bool, true, false, ◌||◌, some, [], ◌∷◌, ◌++◌, ◌==◌, nat_eq, text_eq, Text,
  bytes, length, drop-append, find, has_byte, until, after_last, arith, nat_beq,
}
use a2ad.AgentCard.{is_local_only_url, url_host, authority_host, is_local_host, ends_authority}
use a2ad.TaskState.{lower, to_lower}

-- A byte that ends an authority, or its user information.
abbrev pub has_reserved : Text → Bool
has_reserved [] = false
has_reserved (c ∷ s) = c == b'/' || c == b'?' || c == b'#' || c == b'@' || has_reserved s

-- A host of this machine: its name, an address of 127.0.0.0/8, the loopback address of IPv6, or an
-- unspecified address.
pub data IsLoopbackHost : Text → Type 0 where
  by_name : IsLoopbackHost (bytes "localhost")
  ipv4 : (rest : Text) → has_reserved rest ≡ false → IsLoopbackHost (bytes "127." ++ rest)
  ipv6 : IsLoopbackHost (bytes "[::1]")
  any_ipv4 : IsLoopbackHost (bytes "0.0.0.0")
  any_ipv6 : IsLoopbackHost (bytes "[::]")

pub data IsPort : Text → Type 0 where
  no_port : IsPort []
  port : (digits : Text) → has_reserved digits ≡ false → IsPort (b':' ∷ digits)

pub data IsUser : Text → Type 0 where
  no_user : IsUser []
  user : (name : Text) → has_reserved name ≡ false → IsUser (name ++ b'@' ∷ [])

pub data IsPath : Text → Type 0 where
  no_path : IsPath []
  path : (rest : Text) → IsPath (b'/' ∷ rest)

-- A URL with a scheme, whatever it is, at a host of this machine.
pub data IsLoopbackUrl : Text → Type 0 where
  loopback :
      (scheme u h p rest : Text)
      → has_byte b':' scheme ≡ false
      → IsUser u
      → IsLoopbackHost h
      → IsPort p
      → IsPath rest
      → IsLoopbackUrl (scheme ++ (bytes "://" ++ (u ++ (h ++ p) ++ rest)))

find-scheme :
    (scheme rest : Text)
    → has_byte b':' scheme ≡ false
    → find (scheme ++ (bytes "://" ++ rest)) (bytes "://") ≡ some (length scheme)
find-scheme [] rest h = refl
find-scheme (c ∷ scheme) rest h = rw (other, find-scheme scheme rest (ground (arith, h))) refl
  where
    other : nat_beq c b':' ≡ false
    other = ground (arith, h)

-- A byte that ends an authority.
abbrev has_end : Text → Bool
has_end [] = false
has_end (c ∷ s) = c == b'/' || c == b'?' || c == b'#' || has_end s

has_end-append : (a b : Text) → has_end a ≡ false → has_end b ≡ false → has_end (a ++ b) ≡ false
has_end-append [] b h k = k
has_end-append (c ∷ a) b h k = ground (arith, h, has_end-append a b (ground (arith, h)) k)

reserved-free :
    (s : Text) → has_reserved s ≡ false → (has_end s ≡ false) × (has_byte b'@' s ≡ false)
reserved-free [] h = (refl, refl)
reserved-free (c ∷ s) h = ground (arith, h, reserved-free s (ground (arith, h)))

has_byte-append :
    (c : ℕ) (a b : Text) → has_byte c a ≡ false → has_byte c b ≡ false → has_byte c (a ++ b) ≡ false
has_byte-append c [] b h k = k
has_byte-append c (d ∷ a) b h k = ground (arith, h, has_byte-append c a b (ground (arith, h)) k)

until-append :
    (a rest : Text) → has_end a ≡ false → IsPath rest → until ends_authority (a ++ rest) ≡ a
until-append [] rest h no_path = refl
until-append [] rest h (path p) = refl
until-append (c ∷ a) rest h q = ground (arith, h, until-append a rest (ground (arith, h)) q)

after_last-none : (s : Text) → has_byte b'@' s ≡ false → after_last b'@' s ≡ s
after_last-none [] h = refl
after_last-none (c ∷ s) h = ground (arith, h)

has_byte-at : (name s : Text) → has_byte b'@' ((name ++ b'@' ∷ []) ++ s) ≡ true
has_byte-at [] s = refl
has_byte-at (c ∷ name) s = ground (arith, has_byte-at name s)

after_last-user : (u s : Text) → IsUser u → has_byte b'@' s ≡ false → after_last b'@' (u ++ s) ≡ s
after_last-user u s no_user h = after_last-none s h
after_last-user u s (user name q) h = go name
  where
    go : (name : Text) → after_last b'@' ((name ++ b'@' ∷ []) ++ s) ≡ s
    go [] = rw h refl
    go (c ∷ name) = rw (has_byte-at name s) (go name)

user-end : (u : Text) → IsUser u → has_end u ≡ false
user-end u no_user = refl
user-end u (user name q) = has_end-append name (b'@' ∷ []) (reserved-free name q).0 refl

host-free : (h : Text) → IsLoopbackHost h → (has_end h ≡ false) × (has_byte b'@' h ≡ false)
host-free h by_name = (refl, refl)
host-free h ipv6 = (refl, refl)
host-free h any_ipv4 = (refl, refl)
host-free h any_ipv6 = (refl, refl)
host-free h (ipv4 rest q) = reserved-free rest q

port-free : (p : Text) → IsPort p → (has_end p ≡ false) × (has_byte b'@' p ≡ false)
port-free p no_port = (refl, refl)
port-free p (port digits q) = reserved-free digits q

host-local :
    (h p : Text) → IsLoopbackHost h → IsPort p → is_local_host (authority_host (h ++ p)) ≡ true
unfolding is_local_host authority_host lower to_lower
host-local h p by_name no_port = refl
host-local h p by_name (port ds q) = refl
host-local h p ipv6 no_port = refl
host-local h p ipv6 (port ds q) = refl
host-local h p any_ipv4 no_port = refl
host-local h p any_ipv4 (port ds q) = refl
host-local h p any_ipv6 no_port = refl
host-local h p any_ipv6 (port ds q) = refl
host-local h p (ipv4 rest q) _ = ground arith

url_host-loopback :
    (scheme u h p rest : Text)
    → has_byte b':' scheme ≡ false
    → IsUser u
    → IsLoopbackHost h
    → IsPort p
    → IsPath rest
    → url_host (scheme ++ (bytes "://" ++ (u ++ (h ++ p) ++ rest))) ≡ authority_host (h ++ p)
unfolding url_host
url_host-loopback scheme u h p rest s0 u0 h0 p0 r0 =
    rw
      (
        url_host,
        find-scheme scheme (u ++ (h ++ p) ++ rest) s0,
        drop-append scheme (bytes "://" ++ (u ++ (h ++ p) ++ rest)),
        until-append (u ++ (h ++ p)) rest
            (has_end-append u (h ++ p) (user-end u u0)
              (has_end-append h p (host-free h h0).0 (port-free p p0).0))
            r0,
        after_last-user u (h ++ p) u0
            (has_byte-append b'@' h p (host-free h h0).1 (port-free p p0).1),
      )
      refl

-- Such a URL is local for the program.
pub IsLoopbackUrl-local : (url : Text) → IsLoopbackUrl url → is_local_only_url url ≡ true
unfolding is_local_only_url
IsLoopbackUrl-local url (loopback scheme u h p rest s0 u0 h0 p0 r0) =
    ap is_local_host (url_host-loopback scheme u h p rest s0 u0 h0 p0 r0) ∙ host-local h p h0 p0
