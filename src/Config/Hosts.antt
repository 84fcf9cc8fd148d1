-- ===== src/Config/Hosts.antt =====
-- The hosts that one line of the configuration adds.
use mathlib.Core.List.{cons-ne-nil}
use studytest.Base.{
  ◌≡◌, ◌≢◌, ap, List, [], ◌∷◌, ◌++◌, Bytes, codes, replicate, some, length, find, All,
}
use studytest.Strings.Split.{join, Lacks, find-Lacks, explode-join}
use studytest.Config.{parse_list, add_hosts, rounds}

join-ne : (host rest : Bytes) → host ++ (codes ":" ++ rest) ≢ []
join-ne [] rest e = cons-ne-nil _ _ e
join-ne (c ∷ host) rest e = cons-ne-nil _ _ e

parse_list-parts :
    (tl : List Bytes) (host p : Bytes) (ps : List Bytes)
    → All (Lacks (codes ":")) (host ∷ (p ∷ ps))
    → parse_list tl (join (host ∷ (p ∷ ps)) (codes ":")) ≡ add_hosts tl (host ∷ (p ∷ ps))
unfolding parse_list
parse_list-parts tl host p ps lacks =
    let value = join (host ∷ (p ∷ ps)) (codes ":") in
    let found : find value (codes ":") ≡ some (length host) =
      find-Lacks host b':' (join (p ∷ ps) (codes ":")) lacks.0 in
    rw (found, parse_list)
      (ap (add_hosts tl)
        (explode-join (host ∷ (p ∷ ps)) b':' lacks (join-ne host (join (p ∷ ps) (codes ":")))))

-- A value `host:port:num` adds the address `host:port` to a list of hosts as many times as `num` says,
-- and `host:port` adds it once, if no part holds a colon.
parse_list_lem :
    (tl : List Bytes) (host port num : Bytes)
    → Lacks (codes ":") host
    → Lacks (codes ":") port
    → Lacks (codes ":") num
    → (parse_list tl (join (host ∷ (port ∷ (num ∷ []))) (codes ":"))
        ≡ tl ++ replicate (rounds num) (host ++ (codes ":" ++ port)))
      × (parse_list tl (join (host ∷ (port ∷ [])) (codes ":"))
          ≡ tl ++ (host ++ (codes ":" ++ port)) ∷ [])
unfolding add_hosts
parse_list_lem tl host port num h p n = (
  parse_list-parts tl host port (num ∷ []) (h, (p, (n, tt))),
  parse_list-parts tl host port [] (h, (p, tt)),
)
