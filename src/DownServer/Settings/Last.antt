-- ===== src/DownServer/Settings/Last.antt =====
-- What the lines of the download server's configuration set.
use studytest.Base.{
  ℕ, ◌≡◌, ◌≢◌, refl, sym, ap, ◌∙◌, List, [], ◌∷◌, ◌++◌, append_assoc, append-nil, map, Option, some,
  none, Bool, Bytes, codes, same, same_iff, find, take, drop, ◌+◌, ◌==◌, if◌then◌else◌, Bool-cases,
  inl, inr,
}
use studytest.Strings.{leaves}
use studytest.Strings.Trim.{trim-leaves}
use studytest.Config.{Line, skipped, stray, entry, quotes}
use studytest.Engines.{atoi}
use studytest.DownServer.Settings.{
  Settings, cut_line, cut_trimmed, setting_line, set_member, set_line, read_settings,
}

cut_line-read : (o : Option ℕ) (c : ℕ) (tmp : Bytes) → cut_line o c tmp ≢ stray
cut_line-read none c tmp = λ e. cc
cut_line-read (some ind) c tmp = elim (Bool-cases (c == b'#')) [
  | inl comment ↦ rw (comment, cut_line) (λ e. cc)
  | inr other ↦
      let (key, e) = trim-leaves (take ind (c ∷ tmp)) quotes refl in
      let (value, f) = trim-leaves (drop (ind + 1) (c ∷ tmp)) quotes refl in
      rw (other, cut_line) (rw e (rw f (λ g. cc)))
]

cut_trimmed-read : (s : Bytes) → cut_trimmed (leaves s) ≢ stray
cut_trimmed-read [] = λ e. cc
cut_trimmed-read (c ∷ tmp) = cut_line-read (find (c ∷ tmp) (codes "=")) c tmp

-- No line is read outside of it.
setting_line-read : (line : Bytes) → setting_line line ≢ stray
unfolding setting_line
setting_line-read line =
    let (s, e) = trim-leaves line (codes "\n\r\t ") refl in rw e (cut_trimmed-read s)

-- the values that the lines give a key, in order
abbrev pub value_of : Bytes → Line → List Bytes
value_of k skipped = []
value_of k stray = []
value_of k (entry key value) = if same key k then value ∷ [] else []

abbrev pub values_of : Bytes → List Bytes → List Bytes
values_of k [] = []
values_of k (line ∷ lines) = value_of k (setting_line line) ++ values_of k lines

-- the last value, or what there was
abbrev pub last_or {ℓ} : {A : Type ℓ} → A → List A → A
last_or a [] = a
last_or a (b ∷ bs) = last_or b bs

-- The members behind some lines, from the values given to each key.
abbrev pub Sets : Settings → Settings → (Bytes → List Bytes) → Type 0
Sets s t given =
    (t.header_list ≡ s.header_list ++ given (codes "headers[]"))
    × (t.sendfile_shell ≡ last_or s.sendfile_shell (given (codes "sendfile_shell")))
    × (t.tmp_html_dir ≡ last_or s.tmp_html_dir (given (codes "tmp_html_dir")))
    × (t.timeout ≡ last_or s.timeout (map (λ v. some (atoi v)) (given (codes "timeout"))))

set_member-Sets :
    (s : Settings) (key value : Bytes)
    → Sets s (set_member s key value) (λ k. value_of k (entry key value))
unfolding set_member
set_member-Sets s key value = elim (Bool-cases (same key (codes "headers[]"))) [
  | inl e ↦ let is = (same_iff key (codes "headers[]")).0 e in rw is (refl, refl, refl, refl)
  | inr a ↦ elim (Bool-cases (same key (codes "sendfile_shell"))) [
    | inl e ↦
        let is = (same_iff key (codes "sendfile_shell")).0 e in
        rw is (sym (append-nil s.header_list), refl, refl, refl)
    | inr b ↦ elim (Bool-cases (same key (codes "tmp_html_dir"))) [
      | inl e ↦
          let is = (same_iff key (codes "tmp_html_dir")).0 e in
          rw is (sym (append-nil s.header_list), refl, refl, refl)
      | inr c ↦ elim (Bool-cases (same key (codes "timeout"))) [
        | inl e ↦
            let is = (same_iff key (codes "timeout")).0 e in
            rw is (sym (append-nil s.header_list), refl, refl, refl)
        | inr d ↦ rw (a, b, c, d) (sym (append-nil s.header_list), refl, refl, refl)
      ]
    ]
  ]
]

set_line-Sets :
    (s : Settings) (l : Line)
    → l ≢ stray
    → (t : Settings) × (set_line s l ≡ some t) × Sets s t (λ k. value_of k l)
set_line-Sets s skipped ne = (s, refl, (sym (append-nil s.header_list), refl, refl, refl))
set_line-Sets s stray ne = absurd (ne refl)
set_line-Sets s (entry key value) ne = (set_member s key value, refl, set_member-Sets s key value)

last_or-append {ℓ} :
    {A : Type ℓ} (a : A) (bs cs : List A) → last_or (last_or a bs) cs ≡ last_or a (bs ++ cs)
last_or-append a [] cs = refl
last_or-append a (b ∷ bs) cs = last_or-append b bs cs

map-append : {A B : Type 0} (f : A → B) (xs ys : List A) → map f xs ++ map f ys ≡ map f (xs ++ ys)
map-append f [] ys = refl
map-append f (x ∷ xs) ys = ap (◌∷◌ (f x)) (map-append f xs ys)

Sets-trans :
    (s t u : Settings) (before behind : Bytes → List Bytes)
    → Sets s t before
    → Sets t u behind
    → Sets s u (λ k. before k ++ behind k)
Sets-trans s t u before behind (h, a, b, c) (h', a', b', c') =
    let numbers : List Bytes → List (Option (Bool × ℕ)) = map (λ v. some (atoi v)) in
    (
      h'
          ∙ ap (λ x. x ++ behind (codes "headers[]")) h
          ∙ append_assoc s.header_list (before (codes "headers[]")) _,
      a'
          ∙ ap (λ x. last_or x (behind (codes "sendfile_shell"))) a
          ∙ last_or-append s.sendfile_shell (before (codes "sendfile_shell")) _,
      b'
          ∙ ap (λ x. last_or x (behind (codes "tmp_html_dir"))) b
          ∙ last_or-append s.tmp_html_dir (before (codes "tmp_html_dir")) _,
      c'
          ∙ ap (λ x. last_or x (numbers (behind (codes "timeout")))) c
          ∙ last_or-append s.timeout (numbers (before (codes "timeout")))
              (numbers (behind (codes "timeout")))
          ∙ ap (last_or s.timeout) (
              map-append (λ v. some (atoi v)) (before (codes "timeout"))
                (behind (codes "timeout"))),
    )

-- Whatever the lines of the configuration are, reading it never reads outside of a string; afterwards the headers
-- are those of the lines that give one, in order, and each other member has the value of the last line that
-- names it, or the value from before if there is none. A `timeout` is the number that atoi reads of it.
pub read_settings_lem :
    (s : Settings) (lines : List Bytes)
    → (t : Settings) × (read_settings s lines ≡ some t) × Sets s t (λ k. values_of k lines)
unfolding read_settings
read_settings_lem s [] = (s, refl, (sym (append-nil s.header_list), refl, refl, refl))
read_settings_lem s (line ∷ lines) =
    let (t, e, first) = set_line-Sets s (setting_line line) (setting_line-read line) in
    let (u, f, rest) = read_settings_lem t lines in
    (
      u,
      rw (e, read_settings) f,
      Sets-trans s t u (λ k. value_of k (setting_line line)) (λ k. values_of k lines) first rest,
    )
