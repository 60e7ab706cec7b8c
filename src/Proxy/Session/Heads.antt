-- ===== src/Proxy/Session/Heads.antt =====
-- The heads that a session forwards, described without the code's own operations on URLs and header
-- maps (ProxySession.cpp, `forwardRequest` and `onResponse`).
use deep_seer.Base.{
  ℕ, zero, suc, ◌+◌, ◌≡◌, refl, sym, ap, fun_ext, ◌∙◌, Bool, true, false, inl, inr, [], ◌∷◌, Option,
  none, some, All, arith, if◌then◌else◌, if_true, if_false, Bool-cases, ◌==◌, codes, starts_with,
  drop, find, find_from, find_text,
}
use mathlib.Core.Option
use deep_seer.Core.Buffer.{Bytes, empty_buffer, linearize}
use deep_seer.Http.Headers.{HeaderMap, Entry, less, remove}
use deep_seer.Http.Headers.Order.{same_name, less-same_name, same_name-congr, same_name_comm}
use deep_seer.Http.Headers.Laws.{IsSorted, differ_of_less, remove-IsSorted}
use deep_seer.Http.Message.{HttpRequest, HttpResponse}
use deep_seer.Http.Codec.{encode_request, encode_response}
use deep_seer.Proxy.Session.{origin_form, forwarded_head}

-- The text from the first slash on, and "/" where there is none.
unfoldable pub path : Bytes → Bytes
path [] = b'/' ∷ []
path (c ∷ cs) = let rest = path cs in if c == b'/' then c ∷ cs else rest

-- What follows the first "://".
unfoldable pub after_scheme : Bytes → Option Bytes
after_scheme [] = none
after_scheme (c ∷ cs) =
    let rest = after_scheme cs in
    if starts_with (codes "://") (c ∷ cs) then some (drop 2 cs) else rest

-- The target of a request: of an absolute URL its path, and any other URL as it is.
abbrev pub request_target : Bytes → Bytes
request_target url = elim (after_scheme url) [ none ↦ url | some r ↦ path r ]

map-map :
    {A B C : Type 0} (f : A → B) (g : B → C) (o : Option A)
    → Option.map g (Option.map f o) ≡ Option.map (λ x. g (f x)) o
map-map f g none = refl
map-map f g (some x) = refl

after_scheme_lem :
    (url : Bytes)
    → Option.map (λ i. drop (i + 3) url) (find_text (codes "://") url) ≡ after_scheme url
unfolding after_scheme find_text starts_with
after_scheme_lem [] = refl
after_scheme_lem (c ∷ cs) = elim (Bool-cases (starts_with (codes "://") (c ∷ cs))) [
  | inl h ↦
      rw
        (if_true (starts_with (codes "://") (c ∷ cs)) (some 0)
          (Option.map (λ i. suc i) (find_text (codes "://") cs)) h)
        (sym (if_true (starts_with (codes "://") (c ∷ cs)) (some (drop 2 cs)) (after_scheme cs) h))
  | inr h ↦
      ap (Option.map (λ i. drop (i + 3) (c ∷ cs))) (
        if_false (starts_with (codes "://") (c ∷ cs)) (some 0)
          (Option.map (λ i. suc i) (find_text (codes "://") cs)) h)
      ∙ map-map (λ i. suc i) (λ i. drop (i + 3) (c ∷ cs)) (find_text (codes "://") cs)
      ∙ ap (λ (f : ℕ → Bytes). Option.map f (find_text (codes "://") cs))
          (fun_ext
            (λ i. let e : suc i + 3 ≡ suc (i + 3) = omega arith in ap (λ n. drop n (c ∷ cs)) e))
      ∙ after_scheme_lem cs
      ∙ sym (if_false (starts_with (codes "://") (c ∷ cs)) (some (drop 2 cs)) (after_scheme cs) h)
]

drop-drop : (i j : ℕ) (s : Bytes) → drop (i + j) s ≡ drop j (drop i s)
drop-drop zero j s = let e : 0 + j ≡ j = omega arith in ap (λ n. drop n s) e
drop-drop (suc i) zero [] =
    let e : suc i + 0 ≡ suc i = omega arith in ap (λ (n : ℕ). drop n (let s : Bytes = [] in s)) e
drop-drop (suc i) (suc j) [] =
    let e : suc i + suc j ≡ suc (i + suc j) = omega arith in
    ap (λ (n : ℕ). drop n (let s : Bytes = [] in s)) e
drop-drop (suc i) j (c ∷ cs) =
    let e : suc i + j ≡ suc (i + j) = omega arith in ap (λ n. drop n (c ∷ cs)) e ∙ drop-drop i j cs

-- The rest of a text at a position, and "/" where there is none.
abbrev rest_at : Bytes → Option ℕ → Bytes
rest_at s none = b'/' ∷ []
rest_at s (some j) = drop j s

rest_at-moved :
    (n : ℕ) (s : Bytes) (o : Option ℕ)
    → rest_at s (Option.map (λ j. n + j) o) ≡ rest_at (drop n s) o
rest_at-moved n s none = refl
rest_at-moved n s (some j) = drop-drop n j s

rest_at-suc :
    (c : ℕ) (cs : Bytes) (o : Option ℕ)
    → rest_at (c ∷ cs) (Option.map (λ i. suc i) o) ≡ rest_at cs o
rest_at-suc c cs none = refl
rest_at-suc c cs (some j) = refl

path_lem : (s : Bytes) → rest_at s (find b'/' s) ≡ path s
unfolding path find
path_lem [] = refl
path_lem (c ∷ cs) = elim (Bool-cases (c == b'/')) [
  | inl h ↦ rw h refl
  | inr h ↦ rw h (rest_at-suc c cs (find b'/' cs) ∙ path_lem cs)
]

target_lem :
    (url : Bytes) (o : Option ℕ)
    → elim o as (λ _. Bytes) [ none ↦ url | some i ↦ rest_at url (find_from b'/' (i + 3) url) ]
      ≡ elim (Option.map (λ i. drop (i + 3) url) o) as (λ _. Bytes) [ none ↦ url | some r ↦ path r ]
unfolding find_from
target_lem url none = refl
target_lem url (some i) =
    rest_at-moved (i + 3) url (find b'/' (drop (i + 3) url)) ∙ path_lem (drop (i + 3) url)

origin_form_lem : (url : Bytes) → origin_form url ≡ request_target url
unfolding origin_form
origin_form_lem url =
    target_lem url (find_text (codes "://") url)
    ∙ ap (λ (o : Option Bytes). elim o as (λ _. Bytes) [ none ↦ url | some r ↦ path r ])
        (after_scheme_lem url)

-- The entries under other names, compared up to case.
unfoldable pub without : Bytes → HeaderMap → HeaderMap
without name [] = []
without name ((k, v) ∷ m) =
    let rest = without name m in if same_name k name then rest else (k, v) ∷ rest

without_above :
    (k name : Bytes) (m : HeaderMap)
    → same_name k name ≡ true
    → All (λ (e : Entry). less k e.0 ≡ true) m
    → without name m ≡ m
unfolding without
without_above k name [] h a = refl
without_above k name ((e, v) ∷ m) h a =
    let n : same_name e name ≡ false = ground (
      arith,
      differ_of_less k e a.0,
      same_name-congr k name e,
      same_name_comm e name,
      same_name_comm e k,
      h,
    ) in
    if_false (same_name e name) (without name m) ((e, v) ∷ without name m) n
    ∙ ap (λ t. (e, v) ∷ t) (without_above k name m h a.1)

remove_lem : (name : Bytes) (m : HeaderMap) → IsSorted m → remove name m ≡ without name m
unfolding remove without
remove_lem name [] s = refl
remove_lem name ((k, v) ∷ m) s = elim (Bool-cases (same_name k name)) [
  | inl h ↦ rw (less-same_name k name, h) (sym (without_above k name m h s.0))
  | inr h ↦ rw (less-same_name k name, h) (ap (λ t. (k, v) ∷ t) (remove_lem name m s.1))
]

-- The headers that a client is given: without Transfer-Encoding, and outside TLS interception also
-- without Content-Length.
abbrev pub given_headers : Bool → HeaderMap → HeaderMap
given_headers mitm m =
    let unchunked = without (codes "Transfer-Encoding") m in
    if mitm then unchunked else without (codes "Content-Length") unchunked

forwarded_head_lem :
    (mitm : Bool) (r : HttpResponse)
    → IsSorted r.headers
    → forwarded_head mitm r ≡ record r { headers = given_headers mitm r.headers }
unfolding forwarded_head
forwarded_head_lem true r s =
    ap (λ m. record r { headers = m }) (remove_lem (codes "Transfer-Encoding") r.headers s)
forwarded_head_lem false r s =
    ap (λ m. record r { headers = m })
      (remove_lem (codes "Content-Length") (remove (codes "Transfer-Encoding") r.headers)
          (remove-IsSorted (codes "Transfer-Encoding") r.headers s)
        ∙ ap (without (codes "Content-Length"))
            (remove_lem (codes "Transfer-Encoding") r.headers s))

-- The head of a request as the upstream is given it, and of a response as the client is.
abbrev pub origin_head : HttpRequest → Bytes
origin_head req =
    linearize (encode_request (record req { url = request_target req.url }) empty_buffer)

abbrev pub given_head : Bool → HttpResponse → Bytes
given_head mitm r =
    linearize (encode_response (record r { headers = given_headers mitm r.headers }) empty_buffer)

pub origin_head_lem :
    (req : HttpRequest)
    → linearize (encode_request (record req { url = origin_form req.url }) empty_buffer)
      ≡ origin_head req
origin_head_lem req =
    ap (λ u. linearize (encode_request (record req { url = u }) empty_buffer))
      (origin_form_lem req.url)

pub given_head_lem :
    (mitm : Bool) (r : HttpResponse)
    → IsSorted r.headers
    → linearize (encode_response (forwarded_head mitm r) empty_buffer) ≡ given_head mitm r
given_head_lem mitm r s =
    ap (λ h. linearize (encode_response h empty_buffer)) (forwarded_head_lem mitm r s)
