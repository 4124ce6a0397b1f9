-- ===== src/HttpUtils/Writer.antt =====
-- `http.ResponseWriter` as net/http implements it, and `ResponseWriterWrapper`, `WriteData`,
-- `WriteError` and `GetSourceIP` of http_utils.go.
pub mod Laws
use cosmoguard.Prelude.{
  ℕ, ◌&&◌, not, List, [], ◌∷◌, ◌++◌, Bool, String, Option, none, some, if◌then◌else◌, leb, nat_eq,
  string_eq, ◌==◌,
}
use cosmoguard.Go.{Bytes, utf8}

-- The header that is or will be sent, the final status, and the body sent so far.
pub record Writer : Type 0 where
  pub header : List (String × String)
  pub status : Option ℕ
  pub body : Bytes

abbrev pub new_writer : Writer
new_writer = record { header = []; status = none; body = [] }

-- The calls that a handler makes on a writer.
pub data Call : Type 0 where
  set_header add_header : String → String → Call
  write_header : ℕ → Call
  write : Bytes → Call

-- `Header().Set` replaces the values of the key.
unfoldable pub set : String → String → List (String × String) → List (String × String)
set k v [] = (k, v) ∷ []
set k v ((j, w) ∷ hs) = if j == k then set k v hs else (j, w) ∷ set k v hs

-- An informational status is sent at once and does not end the header.
is_informational : ℕ → Bool
is_informational code = leb 100 code && leb code 199 && not (code == 101)

-- The header is sent with the first final status, and later changes of either are lost. A body
-- without a status has status 200.
unfoldable pub respond : Writer → Call → Writer
unfolding is_informational
respond w (set_header k v) = elim w.status [
  | none ↦ record w { header = set k v w.header }
  | some _ ↦ w
]
respond w (add_header k v) = elim w.status [
  | none ↦ record w { header = w.header ++ (k, v) ∷ [] }
  | some _ ↦ w
]
respond w (write_header code) = elim w.status [
  | none ↦ if is_informational code then w else record w { status = some code }
  | some _ ↦ w
]
respond w (write bs) = elim w.status [
  | none ↦ record w { status = some 200; body = w.body ++ bs }
  | some _ ↦ record w { body = w.body ++ bs }
]

pub record Wrapper : Type 0 where
  pub inner : Writer
  pub buf : Bytes
  pub status_code : ℕ

-- `WrapResponseWriter`.
unfoldable pub wrap : Writer → Wrapper
wrap w = record { inner = w; buf = []; status_code = 0 }

-- `Write`, `WriteHeader` and the promoted `Header` of the wrapper.
unfoldable pub forward : Wrapper → Call → Wrapper
unfolding respond
forward ww (set_header k v) = record ww { inner = respond ww.inner (set_header k v) }
forward ww (add_header k v) = record ww { inner = respond ww.inner (add_header k v) }
forward ww (write_header code) = record ww {
  inner = respond ww.inner (write_header code);
  status_code = code;
}
forward ww (write bs) = record ww {
  inner = respond ww.inner (write bs);
  buf = ww.buf ++ bs;
  status_code = if ww.status_code == 0 then 200 else ww.status_code;
}

-- All the calls that a handler makes, in order.
unfoldable pub forward_all : Wrapper → List Call → Wrapper
unfolding forward
forward_all ww [] = ww
forward_all ww (c ∷ cs) = forward_all (forward ww c) cs

unfoldable pub respond_all : Writer → List Call → Writer
unfolding respond
respond_all w [] = w
respond_all w (c ∷ cs) = respond_all (respond w c) cs

-- The loop of `WriteData` and `WriteError` over the header arguments; an odd number is ignored.
unfoldable pub header_calls : List String → Option (List Call)
header_calls [] = some []
header_calls (k ∷ []) = none
header_calls (k ∷ v ∷ hs) = elim (header_calls hs) [
  | none ↦ none
  | some cs ↦ some (set_header k v ∷ cs)
]

unfoldable pub write_data : Writer → ℕ → Bytes → List String → Writer
unfolding respond_all header_calls
write_data w code bytes headers =
    let w' : Writer = elim (header_calls headers) [ none ↦ w | some cs ↦ respond_all w cs ] in
    respond (respond w' (write_header code)) (write bytes)

unfoldable pub write_error : Writer → ℕ → String → List String → Writer
unfolding write_data
write_error w code msg headers = write_data w code (utf8 msg) headers

-- `GetSourceIP`, of the two headers and the remote address.
unfoldable pub get_source_ip : String → String → String → String
get_source_ip real_ip forwarded_for remote_addr =
    let address : String = if real_ip == "" then forwarded_for else real_ip in
    if address == "" then remote_addr else address
