-- ===== src/LineTest.antt =====
-- docker-deploy/src/testing.cpp: the program that tries the reading of a request line.
pub mod Laws
use proxy_cache_server.Prelude.{
  Bool, true, false, not, ◌&&◌, ◌||◌, List, [], ◌∷◌, ◌++◌, none, some, ◌==◌, if◌then◌else◌,
}
use proxy_cache_server.Text.{
  Bytes, codes, bytes_eq, is_empty, last_byte, drop_last, stream, getline,
}

-- What the function returns, and its line on `std::cout`.
pub record Verdict : Type 0 where
  pub returned : Bool
  pub cout : Bytes

abbrev error : Bytes → Verdict
error text = record { returned = false; cout = text }

-- The checks behind the carriage return.
unfoldable pub judge_parts : Bytes → Bytes → Bytes → Verdict
judge_parts method url version =
    if not (
      bytes_eq method (codes "GET")
      || bytes_eq method (codes "POST")
      || bytes_eq method (codes "CONNECT"))
    then error (codes "error 3")
    else if not (bytes_eq version (codes "HTTP/1.1"))
    then error (codes "error 4")
    else record {
      returned = true;
      cout =
          codes "no errors\nmethod: "
          ++ (method ++ (codes " url: " ++ (url ++ (codes " version: " ++ version))));
    }

unfoldable pub judge : Bytes → Bytes → Bytes → Verdict
judge method url version =
    if is_empty method || is_empty url || is_empty version
    then error (codes "error 1")
    else elim (last_byte version) [
      | none ↦ error (codes "error 1")
      | some c ↦
          if not (c == b'\r')
          then error (codes "error 2")
          else judge_parts method url (drop_last version)
    ]

-- The function on a line of its own.
unfoldable pub judge_line : Bytes → Verdict
judge_line line =
    let (method, after_method, _) = getline b' ' [] (stream line) in
    let (url, after_url, _) = getline b' ' [] after_method in
    let (version, _, _) = getline b'\n' [] after_url in judge method url version

unfoldable pub request_line_parsing_test : Verdict
request_line_parsing_test = judge_line (codes "GET /test HTTP/1.1\r")
