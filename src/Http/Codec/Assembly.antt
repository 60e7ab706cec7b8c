-- ===== src/Http/Codec/Assembly.antt =====
-- The parse state of the codec: how the callbacks of one message are put together, whatever pieces
-- the parser hands over.
use deep_seer.Base.{
  ◌≡◌, ◌≢◌, refl, ap, ◌∙◌, Bool, true, false, List, [], ◌∷◌, ◌++◌, map, append_assoc, append-nil,
  Option, none, some, All, ◌>>=◌,
}
use deep_seer.Core.Buffer.{Bytes}
use deep_seer.Http.Headers.{HeaderMap, set}
use deep_seer.Http.Message.{HttpRequest, blank_request, blank_response}
use deep_seer.Http.Codec.{
  Parser, http_request, Call, message_begin, url_part, header_field_part, header_value_part,
  headers_complete, CodecCallbacks, Emit, request_head, emit_if, Codec, finish_header,
  complete_request, on_headers_complete, on_call, run_calls, for_request, is_request,
}

-- The pieces in which the parser hands over one header: at least one for the name and the value.
pub record Pieces : Type 0 where
  pub name : Bytes
  pub names : List Bytes
  pub value : Bytes
  pub values : List Bytes

abbrev pub concat : List Bytes → Bytes
concat [] = []
concat (x ∷ xs) = x ++ concat xs

abbrev pub full_name : Pieces → Bytes
full_name h = concat (h.name ∷ h.names)

abbrev pub full_value : Pieces → Bytes
full_value h = concat (h.value ∷ h.values)

module _ (p : Parser) where
  abbrev pub url_calls : List Bytes → List (Parser × Call)
  url_calls = map (λ s. (p, url_part s))

  abbrev pub name_calls : List Bytes → List (Parser × Call)
  name_calls = map (λ s. (p, header_field_part s))

  abbrev pub value_calls : List Bytes → List (Parser × Call)
  value_calls = map (λ s. (p, header_value_part s))

  abbrev pub header_calls : List Pieces → List (Parser × Call)
  header_calls [] = []
  header_calls (h ∷ hs) =
      name_calls (h.name ∷ h.names) ++ (value_calls (h.value ∷ h.values) ++ header_calls hs)

  abbrev pub message_calls : List Bytes → List Pieces → List (Parser × Call)
  message_calls urls hs =
      (p, message_begin) ∷ (url_calls urls ++ (header_calls hs ++ (p, headers_complete) ∷ []))

-- The headers in the order in which they came.
abbrev pub collect : HeaderMap → List Pieces → HeaderMap
collect m [] = m
collect m (h ∷ hs) = collect (set (full_name h) (full_value h) m) hs

silent : (r : Option (Codec × List Emit)) → (r >>= λ x. some (x.0, [] ++ x.1)) ≡ r
silent none = refl
silent (some (c, es)) = refl

module _ (p : Parser) (is_req : p.type ≡ http_request) where
  module _ (rest : List (Parser × Call)) where
    run-url :
        (ss : List Bytes) (c : Codec) (req : HttpRequest) (u : Bytes)
        → run_calls (url_calls p ss ++ rest) (record c { current_request = record req { url = u } })
          ≡ run_calls rest (record c { current_request = record req { url = u ++ concat ss } })
    unfolding run_calls on_call
    run-url [] c req u = rw append-nil
    run-url (s ∷ ss) c req u = silent _ ∙ run-url ss c req (u ++ s) ∙ rw append_assoc

    run-value :
        (ss : List Bytes) (c : Codec) (v : Bytes)
        → run_calls
            (value_calls p ss ++ rest)
            (record c { current_header_value = v; in_header_value = true })
          ≡ run_calls rest
              (record c { current_header_value = v ++ concat ss; in_header_value = true })
    unfolding run_calls on_call
    run-value [] c v = rw append-nil
    run-value (s ∷ ss) c v = silent _ ∙ run-value ss c (v ++ s) ∙ rw append_assoc

    run-name :
        (ss : List Bytes) (c : Codec) (n : Bytes)
        → run_calls
            (name_calls p ss ++ rest)
            (record c { current_header_field = n; in_header_value = false })
          ≡ run_calls rest
              (record c { current_header_field = n ++ concat ss; in_header_value = false })
    unfolding run_calls on_call
    run-name [] c n = rw append-nil
    run-name (s ∷ ss) c n = silent _ ∙ run-name ss c (n ++ s) ∙ rw append_assoc

  -- A codec in the middle of a request's headers: those collected, and the pending one.
  abbrev pending : Codec → HttpRequest → HeaderMap → Bytes → Bytes → Bool → Codec
  pending c req m n v inside = record c {
    current_request = record req { headers = m };
    current_header_field = n;
    current_header_value = v;
    in_header_value = inside;
  }

  finish-pending :
      (c : Codec) (req : HttpRequest) (m : HeaderMap) (n v : Bytes) (inside : Bool)
      → n ≢ []
      → finish_header p.type (pending c req m n v inside) ≡ pending c req (set n v m) [] [] inside
  unfolding finish_header
  finish-pending c req m [] v inside h = absurd (h refl)
  finish-pending c req m (x ∷ n) v inside h = rw (ap (λ t. for_request t c.building_request) is_req)

  finish-nothing :
      (c : Codec) (req : HttpRequest) (m : HeaderMap) (v : Bytes) (inside : Bool)
      → finish_header p.type (pending c req m [] v inside) ≡ pending c req m [] v inside
  unfolding finish_header
  finish-nothing c req m v inside = refl

  -- One more header, after a pending one and after none.
  run-next :
      (c : Codec) (req : HttpRequest) (m : HeaderMap) (n v : Bytes) (h : Pieces)
      (rest : List (Parser × Call))
      → n ≢ []
      → run_calls
          (name_calls p (h.name ∷ h.names) ++ (value_calls p (h.value ∷ h.values) ++ rest))
          (pending c req m n v true)
        ≡ run_calls rest (pending c req (set n v m) (full_name h) (full_value h) true)
  unfolding run_calls on_call
  run-next c req m n v h rest e = rw (finish-pending c req m n v true e) (
      silent _
      ∙ run-name (value_calls p (h.value ∷ h.values) ++ rest) h.names
          (pending c req (set n v m) [] [] false) h.name
      ∙ silent _
      ∙ run-value rest h.values (pending c req (set n v m) (full_name h) [] true) h.value)

  run-first :
      (c : Codec) (req : HttpRequest) (m : HeaderMap) (h : Pieces) (rest : List (Parser × Call))
      → run_calls
          (name_calls p (h.name ∷ h.names) ++ (value_calls p (h.value ∷ h.values) ++ rest))
          (pending c req m [] [] false)
        ≡ run_calls rest (pending c req m (full_name h) (full_value h) true)
  unfolding run_calls on_call
  run-first c req m h rest =
      silent _
      ∙ run-name (value_calls p (h.value ∷ h.values) ++ rest) h.names (pending c req m [] [] false)
          h.name
      ∙ silent _
      ∙ run-value rest h.values (pending c req m (full_name h) [] true) h.value

  abbrev finish_line : List (Parser × Call)
  finish_line = (p, headers_complete) ∷ []

  complete-pending :
      (c : Codec) (req : HttpRequest) (m : HeaderMap) (n v : Bytes)
      → n ≢ []
      → run_calls finish_line (pending c req m n v true)
        ≡ run_calls finish_line (pending c req (set n v m) [] [] true)
  unfolding run_calls on_call on_headers_complete
  complete-pending c req m n v h =
      rw (finish-pending c req m n v true h, finish-nothing c req (set n v m) [] true)

  run-headers :
      (hs : List Pieces) (c : Codec) (req : HttpRequest) (m : HeaderMap) (n v : Bytes)
      → n ≢ []
      → All (λ h. full_name h ≢ []) hs
      → run_calls (header_calls p hs ++ finish_line) (pending c req m n v true)
        ≡ run_calls finish_line (pending c req (collect (set n v m) hs) [] [] true)
  run-headers [] c req m n v e a = complete-pending c req m n v e
  run-headers (h ∷ hs) c req m n v e a =
      rw
        (
          append_assoc (name_calls p (h.name ∷ h.names)),
          append_assoc (value_calls p (h.value ∷ h.values)),
        )
        (run-next c req m n v h (header_calls p hs ++ finish_line) e
          ∙ run-headers hs c req (set n v m) (full_name h) (full_value h) a.0 a.1)

  abbrev emitted : Option (Codec × List Emit) → Option (List Emit)
  emitted r = r >>= λ x. some x.1

  abbrev head_emit : CodecCallbacks → HttpRequest → Option (List Emit)
  head_emit cbs req = complete_request p req >>= λ r. some (emit_if cbs.on_request (request_head r))

  emit_bind :
      (r : Option HttpRequest) (f : HttpRequest → Codec) (es : HttpRequest → List Emit)
      → emitted
          (◌>>=◌ {A = Codec × List Emit} (r >>= λ q. some (f q, es q)) (λ x. some (x.0, x.1 ++ [])))
        ≡ (r >>= λ q. some (es q))
  emit_bind none f es = refl
  emit_bind (some q) f es = rw append-nil

  emitted-finish :
      (c : Codec) (req : HttpRequest) (m : HeaderMap) (inside : Bool)
      → emitted (run_calls finish_line (pending c req m [] [] inside))
        ≡ head_emit c.callbacks (record req { headers = m })
  unfolding run_calls on_call on_headers_complete
  emitted-finish c req m inside =
      rw (finish-nothing c req m [] inside, ap is_request is_req) (emit_bind _ _ _)

  run-All :
      (hs : List Pieces) (c : Codec) (req : HttpRequest) (m : HeaderMap)
      → All (λ h. full_name h ≢ []) hs
      → emitted (run_calls (header_calls p hs ++ finish_line) (pending c req m [] [] false))
        ≡ head_emit c.callbacks (record req { headers = collect m hs })
  run-All [] c req m a = emitted-finish c req m false
  run-All (h ∷ hs) c req m a =
      rw
        (
          append_assoc (name_calls p (h.name ∷ h.names)),
          append_assoc (value_calls p (h.value ∷ h.values)),
        )
        (ap emitted (
            run-first c req m h (header_calls p hs ++ finish_line)
            ∙ run-headers hs c req m (full_name h) (full_value h) a.0 a.1)
          ∙ emitted-finish c req (collect (set (full_name h) (full_value h) m) hs) true)

  begin-message :
      (urls : List Bytes) (hs : List Pieces) (c : Codec)
      → run_calls (message_calls p urls hs) c
        ≡ run_calls (header_calls p hs ++ finish_line) (
            pending
              (record c { current_response = blank_response })
              (record blank_request { url = concat urls })
              []
              []
              []
              false)
  unfolding run_calls on_call
  begin-message urls hs c =
      silent _
      ∙ run-url (header_calls p hs ++ finish_line) urls
          (pending (record c { current_response = blank_response }) blank_request [] [] [] false)
          blank_request []

  -- However the parser cuts the URL and the headers of a request into pieces, with at least one for
  -- each name and value and no empty name, the codec reports the request with the whole URL and the
  -- whole headers, set in order, or throws where completing that request throws.
  pub message_lem :
      (urls : List Bytes) (hs : List Pieces) (c : Codec)
      → All (λ h. full_name h ≢ []) hs
      → (run_calls (message_calls p urls hs) c >>= λ x. some x.1) ≡ (
          complete_request p (record blank_request { url = concat urls; headers = collect [] hs })
          >>= λ r. some (emit_if c.callbacks.on_request (request_head r)))
  message_lem urls hs c a =
      ap emitted (begin-message urls hs c)
      ∙ run-All hs (record c { current_response = blank_response })
          (record blank_request { url = concat urls }) [] a
