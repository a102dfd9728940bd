-- ===== src/Http/Response/Codes.antt =====
-- src/http_impl.c: the table of response codes in `http_set_respcode`.
use memqueue.Base.{ℕ, Bool, true, false, Text, codes, ◌==◌, if◌then◌else◌}

-- What the `switch` sets.
pub record Status : Type 0 where
  pub respcode : ℕ
  pub respcode_int : Text
  pub respcode_str : Text
  pub dont_close : Bool

abbrev row : ℕ → Text → Text → Bool → Status
row code int str keep = record {
  respcode = code;
  respcode_int = int;
  respcode_str = str;
  dont_close = keep;
}

-- A code that the table does not have becomes 204.
unfoldable pub status : ℕ → Status
status code =
    if code == 200
    then row 200 (codes "200 ") (codes "OK") true
    else (if code == 201
        then row 201 (codes "201 ") (codes "Created") true
        else (if code == 202
            then row 202 (codes "202 ") (codes "Accepted") true
            else (if code == 203
                then row 203 (codes "203 ") (codes "Non-Authoritative Information") false
                else (if code == 204
                    then row 204 (codes "204 ") (codes "No Content") true
                    else (if code == 205
                        then row 205 (codes "205 ") (codes "Reset Content") false
                        else (if code == 206
                            then row 206 (codes "206 ") (codes "Partial Content") true
                            else (if code == 300
                                then row 300 (codes "300 ") (codes "Multiple Choices") false
                                else (if code == 301
                                    then row 301 (codes "301 ") (codes "Moved Permanently") true
                                    else (if code == 302
                                        then row 302 (codes "302 ") (codes "Found") true
                                        else (if code == 303
                                            then row 303 (codes "303 ") (codes "See Other") true
                                            else (if code == 304
                                                then row 304 (codes "304 ") (codes "Not Modified")
                                                    true
                                                else (if code == 305
                                                    then row 305 (codes "305 ") (codes "Use Proxy")
                                                        false
                                                    else (if code == 307
                                                        then row 307 (codes "307 ")
                                                            (codes "Temporary Redirect") false
                                                        else (if code == 400
                                                            then row 400 (codes "400 ")
                                                            (codes "Bad Request") false
                                                            else (if code == 401
                                                            then row 401 (codes "401 ")
                                                            (codes "Unauthorized") false
                                                            else (if code == 404
                                                            then row 404 (codes "404 ")
                                                            (codes "Not Found") false
                                                            else (if code == 405
                                                            then row 405 (codes "405 ")
                                                            (codes "Method Not Allowed") false
                                                            else (if code == 407
                                                            then row 407 (codes "407 ")
                                                            (codes "Proxy Authentication Required")
                                                            false
                                                            else (if code == 408
                                                            then row 408 (codes "408 ")
                                                            (codes "Request Timeout") false
                                                            else (if code == 409
                                                            then row 409 (codes "409 ")
                                                            (codes "Conflict") false
                                                            else (if code == 410
                                                            then row 410 (codes "410 ")
                                                            (codes "Gone") false
                                                            else (if code == 411
                                                            then row 411 (codes "411 ")
                                                            (codes "Length Required") false
                                                            else (if code == 412
                                                            then row 412 (codes "412 ")
                                                            (codes "Precondition Failed") false
                                                            else (if code == 413
                                                            then row 413 (codes "413 ")
                                                            (codes "Request Entity Too Large") false
                                                            else (if code == 414
                                                            then row 414 (codes "414 ")
                                                            (codes "Request-URI Too Long") false
                                                            else (if code == 415
                                                            then row 415 (codes "415 ")
                                                            (codes "Unsupported Media Type") false
                                                            else (if code == 416
                                                            then row 416 (codes "416 ")
                                                            (codes
                                                            "Requested Range Not Satisfiable")
                                                            false
                                                            else (if code == 417
                                                            then row 417 (codes "417 ")
                                                            (codes "Expectation Failed") false
                                                            else (if code == 500
                                                            then row 500 (codes "500 ")
                                                            (codes "Internal Server Error") false
                                                            else (if code == 501
                                                            then row 501 (codes "501 ")
                                                            (codes "Not Implemented") false
                                                            else (if code == 502
                                                            then row 502 (codes "502 ")
                                                            (codes "Bad Gateway") false
                                                            else (if code == 503
                                                            then row 503 (codes "503 ")
                                                            (codes "Service Unavailable") false
                                                            else (if code == 504
                                                            then row 504 (codes "504 ")
                                                            (codes "Gateway Timeout") false
                                                            else (if code == 505
                                                            then row 505 (codes "505 ")
                                                            (codes "HTTP Version Not Supported")
                                                            false
                                                            else row 204 (codes "204 ")
                                                            (codes "No Content")
                                                            false))))))))))))))))))))))))))))))))))
