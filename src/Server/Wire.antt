-- ===== src/Server/Wire.antt =====
-- internal/server/server.go handleConn, and the encoding of the messages: one line for a request and one
-- for its answer.
use an_b.Base.{
  ℕ, ◌<◌, Bool, true, false, ◌&&◌, List, [], ◌∷◌, ◌++◌, Option, none, some, Bytes, codes, leb, ltb,
  if◌then◌else◌, ◌==◌, nat_eq, All, ◌≡◌, refl, ◌∙◌, append-nil, ap, arith,
}
use mathlib.Core.Path.{transport}
use an_b.Crypto.Packed.{Aead}
use an_b.Server.{Request, Response, Server, World, failure, bad_request, emit, drop_event, dispatch}

-- utf8.ValidString: the ranges of the bytes that must follow a first byte
abbrev pub Range : Type 0
Range = ℕ × ℕ

abbrev pub continuation : Range
continuation = (0x80, 0xbf)

abbrev pub is_between : ℕ → ℕ → ℕ → Bool
is_between lo hi c = leb lo c && leb c hi

unfoldable pub following : ℕ → Option (List Range)
following c =
    if ltb c 0x80
    then some []
    else if is_between 0xc2 0xdf c
    then some (continuation ∷ [])
    else if c == 0xe0
    then some ((0xa0, 0xbf) ∷ continuation ∷ [])
    else if c == 0xed
    then some ((0x80, 0x9f) ∷ continuation ∷ [])
    else if is_between 0xe1 0xef c
    then some (continuation ∷ continuation ∷ [])
    else if c == 0xf0
    then some ((0x90, 0xbf) ∷ continuation ∷ continuation ∷ [])
    else if is_between 0xf1 0xf3 c
    then some (continuation ∷ continuation ∷ continuation ∷ [])
    else if c == 0xf4
    then some ((0x80, 0x8f) ∷ continuation ∷ continuation ∷ [])
    else none

-- the ranges are those of the bytes that the current character still wants
unfoldable pub utf8_from : List Range → Bytes → Bool
unfolding following
utf8_from [] [] = true
utf8_from (r ∷ rs) [] = false
utf8_from ((lo, hi) ∷ rs) (c ∷ s) = let rest = utf8_from rs s in is_between lo hi c && rest
utf8_from [] (c ∷ s) = elim (following c) [ none ↦ false | some rs ↦ utf8_from rs s ]

abbrev pub IsUtf8 : Bytes → Type 0
IsUtf8 s = utf8_from [] s ≡ true

following-ascii : (c : ℕ) → c < 128 → following c ≡ some []
unfolding following
following-ascii c h = let e : ltb c 0x80 ≡ true = ground arith in rw e refl

utf8-next : (c : ℕ) (s : Bytes) → c < 128 → utf8_from [] (c ∷ s) ≡ utf8_from [] s
unfolding utf8_from
utf8-next c s h = rw (utf8_from, following-ascii c h) refl

-- ASCII text in front of valid text
pub IsUtf8-ascii : (s t : Bytes) → All (λ c. c < 128) s → IsUtf8 t → IsUtf8 (s ++ t)
IsUtf8-ascii [] t h ht = ht
IsUtf8-ascii (c ∷ s) t (hc, h) ht = utf8-next c (s ++ t) hc ∙ IsUtf8-ascii s t h ht

pub Ascii-IsUtf8 : (s : Bytes) → All (λ c. c < 128) s → IsUtf8 s
Ascii-IsUtf8 s h =
    transport (ap IsUtf8 (append-nil s)) (IsUtf8-ascii s [] h (unfold utf8_from in refl))

pub record IsTextRequest (q : Request) : Type 0 where
  pub op : IsUtf8 q.op
  pub key : IsUtf8 q.key
  pub keys : All IsUtf8 q.keys
  pub plaintext : IsUtf8 q.plaintext
  pub packed : IsUtf8 q.packed
  pub packed_many : All IsUtf8 q.packed_many
  pub reason : IsUtf8 q.reason

pub record IsTextResponse (r : Response) : Type 0 where
  pub error : IsUtf8 r.error
  pub packed : IsUtf8 r.packed
  pub plaintext : IsUtf8 r.plaintext
  pub plaintext_many : All IsUtf8 r.plaintext_many
  pub rewrapped_packed : IsUtf8 r.rewrapped_packed
  pub rewrapped_packed_many : All IsUtf8 r.rewrapped_packed_many

-- encoding/json: json.Marshal and json.Unmarshal of the messages, and the length of a line with its end.
-- A line of json.Marshal holds no other end of line.
pub record Json (Line : Type 0) : Type 0 where
  pub write_request : Request → Line
  pub read_request : Line → Option Request
  pub write_response : Response → Line
  pub read_response : Line → Option Response
  pub size : Line → ℕ

-- messages of valid UTF-8 come back as they were; json.Marshal replaces what is not valid
pub record IsJson {Line : Type 0} (json : Json Line) : Type 0 where
  pub request_back :
      (q : Request) → IsTextRequest q → json.read_request (json.write_request q) ≡ some q
  pub response_back :
      (r : Response) → IsTextResponse r → json.read_response (json.write_response r) ≡ some r

-- 1 MiB
abbrev pub max_req_bytes : ℕ
max_req_bytes = 1_048_576

module _ {Line : Type 0} (json : Json Line) (aead : Aead) (identity : Bytes) where
  abbrev pub answer_request : Option Request → World → Server → Server × Response
  answer_request none w s = (s, failure bad_request (codes "malformed request"))
  answer_request (some req) w s = dispatch aead identity req w s

  -- One round of the loop of handleConn, for a line that has come with its end. A line that does not
  -- fit the buffer is refused, and the connection closed.
  unfoldable pub handle_line : Line → World → Server → Server × Response
  handle_line line w s =
      if ltb max_req_bytes (json.size line)
      then (
        emit (drop_event identity (codes "request-too-large")) s,
        failure bad_request (codes "request exceeds 1 MiB"),
      )
      else answer_request (json.read_request line) w s
