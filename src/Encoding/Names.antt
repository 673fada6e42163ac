-- ===== src/Encoding/Names.antt =====
-- crates/rlibpq/src/encoding.rs: `from_name` over `ENCNAME_TBL`.
use Prim.Native.String.{String}
use pgrust_drop.Prelude.{
  ℕ, ◌+◌, Bool, ◌&&◌, ◌||◌, List, [], ◌∷◌, Option, none, some, leb, if◌then◌else◌, length, Bytes,
  codes, bytes_eq, is_nil,
}
use pgrust_drop.Encoding.{Encoding}

-- `u8::is_ascii_alphanumeric`.
abbrev is_ascii_alphanumeric : ℕ → Bool
is_ascii_alphanumeric c =
    (leb b'0' c && leb c b'9') || (leb b'A' c && leb c b'Z') || (leb b'a' c && leb c b'z')

-- `u8::to_ascii_lowercase`.
abbrev to_ascii_lowercase : ℕ → ℕ
to_ascii_lowercase c = if leb b'A' c && leb c b'Z' then c + 32 else c

-- `clean_encoding_name`: the ASCII alphanumerics, in lower case.
clean_encoding_name : Bytes → Bytes
clean_encoding_name [] = []
clean_encoding_name (c ∷ cs) =
    if is_ascii_alphanumeric c
    then to_ascii_lowercase c ∷ clean_encoding_name cs
    else clean_encoding_name cs

abbrev namedatalen : ℕ
namedatalen = 64

encname_tbl : List (String × Encoding)
encname_tbl =
    ("abc", Encoding.win1258)
    ∷ ("alt", Encoding.win866)
    ∷ ("big5", Encoding.big5)
    ∷ ("euccn", Encoding.euc_cn)
    ∷ ("eucjis2004", Encoding.euc_jis2004)
    ∷ ("eucjp", Encoding.euc_jp)
    ∷ ("euckr", Encoding.euc_kr)
    ∷ ("euctw", Encoding.euc_tw)
    ∷ ("gb18030", Encoding.gb18030)
    ∷ ("gbk", Encoding.gbk)
    ∷ ("iso88591", Encoding.latin1)
    ∷ ("iso885910", Encoding.latin6)
    ∷ ("iso885913", Encoding.latin7)
    ∷ ("iso885914", Encoding.latin8)
    ∷ ("iso885915", Encoding.latin9)
    ∷ ("iso885916", Encoding.latin10)
    ∷ ("iso88592", Encoding.latin2)
    ∷ ("iso88593", Encoding.latin3)
    ∷ ("iso88594", Encoding.latin4)
    ∷ ("iso88595", Encoding.iso8859_5)
    ∷ ("iso88596", Encoding.iso8859_6)
    ∷ ("iso88597", Encoding.iso8859_7)
    ∷ ("iso88598", Encoding.iso8859_8)
    ∷ ("iso88599", Encoding.latin5)
    ∷ ("johab", Encoding.johab)
    ∷ ("koi8", Encoding.koi8_r)
    ∷ ("koi8r", Encoding.koi8_r)
    ∷ ("koi8u", Encoding.koi8_u)
    ∷ ("latin1", Encoding.latin1)
    ∷ ("latin10", Encoding.latin10)
    ∷ ("latin2", Encoding.latin2)
    ∷ ("latin3", Encoding.latin3)
    ∷ ("latin4", Encoding.latin4)
    ∷ ("latin5", Encoding.latin5)
    ∷ ("latin6", Encoding.latin6)
    ∷ ("latin7", Encoding.latin7)
    ∷ ("latin8", Encoding.latin8)
    ∷ ("latin9", Encoding.latin9)
    ∷ ("mskanji", Encoding.sjis)
    ∷ ("muleinternal", Encoding.mule_internal)
    ∷ ("shiftjis", Encoding.sjis)
    ∷ ("shiftjis2004", Encoding.shift_jis2004)
    ∷ ("sjis", Encoding.sjis)
    ∷ ("sqlascii", Encoding.sql_ascii)
    ∷ ("tcvn", Encoding.win1258)
    ∷ ("tcvn5712", Encoding.win1258)
    ∷ ("uhc", Encoding.uhc)
    ∷ ("unicode", Encoding.utf8)
    ∷ ("utf8", Encoding.utf8)
    ∷ ("vscii", Encoding.win1258)
    ∷ ("win", Encoding.win1251)
    ∷ ("win1250", Encoding.win1250)
    ∷ ("win1251", Encoding.win1251)
    ∷ ("win1252", Encoding.win1252)
    ∷ ("win1253", Encoding.win1253)
    ∷ ("win1254", Encoding.win1254)
    ∷ ("win1255", Encoding.win1255)
    ∷ ("win1256", Encoding.win1256)
    ∷ ("win1257", Encoding.win1257)
    ∷ ("win1258", Encoding.win1258)
    ∷ ("win866", Encoding.win866)
    ∷ ("win874", Encoding.win874)
    ∷ ("win932", Encoding.sjis)
    ∷ ("win936", Encoding.gbk)
    ∷ ("win949", Encoding.uhc)
    ∷ ("win950", Encoding.big5)
    ∷ ("windows1250", Encoding.win1250)
    ∷ ("windows1251", Encoding.win1251)
    ∷ ("windows1252", Encoding.win1252)
    ∷ ("windows1253", Encoding.win1253)
    ∷ ("windows1254", Encoding.win1254)
    ∷ ("windows1255", Encoding.win1255)
    ∷ ("windows1256", Encoding.win1256)
    ∷ ("windows1257", Encoding.win1257)
    ∷ ("windows1258", Encoding.win1258)
    ∷ ("windows866", Encoding.win866)
    ∷ ("windows874", Encoding.win874)
    ∷ ("windows932", Encoding.sjis)
    ∷ ("windows936", Encoding.gbk)
    ∷ ("windows949", Encoding.uhc)
    ∷ ("windows950", Encoding.big5)
    ∷ []

-- What the binary search finds: on a sorted table, the row that compares equal.
search_tbl : Bytes → List (String × Encoding) → Option Encoding
search_tbl key [] = none
search_tbl key ((candidate, e) ∷ rows) =
    if bytes_eq (codes candidate) key then some e else search_tbl key rows

unfoldable pub from_name : Bytes → Option Encoding
unfolding clean_encoding_name encname_tbl search_tbl bytes_eq
from_name name =
    if is_nil name || leb namedatalen (length name)
    then none
    else search_tbl (clean_encoding_name name) encname_tbl
