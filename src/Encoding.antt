-- ===== src/Encoding.antt =====
-- crates/rlibpq/src/encoding.rs: the client encodings, and the function family that each one uses.
-- Names is the lookup by name, Length and Verify are the character length and validity functions.
pub mod Names
pub mod Length
pub mod Verify
pub mod Laws
pub mod Local
pub mod Restrict
use Prim.Native.Nat.{ℕ}

-- `enum Encoding`, in declaration order.
pub data Encoding : Type 0 where
  sql_ascii euc_jp euc_cn euc_kr euc_tw euc_jis2004 utf8 mule_internal latin1 latin2 : Encoding
  latin3 latin4 latin5 latin6 latin7 latin8 latin9 latin10 win1256 win1258 win866 : Encoding
  win874 koi8_r win1251 win1252 iso8859_5 iso8859_6 iso8859_7 iso8859_8 win1250 : Encoding
  win1253 win1254 win1255 win1257 koi8_u sjis big5 gbk uhc gb18030 johab shift_jis2004 : Encoding

-- `enum Family`.
pub data Family : Type 0 where
  ascii euc_jp euc_cn euc_kr euc_tw utf8 mule latin1 sjis big5 gbk uhc gb18030 johab : Family

-- `Encoding::family`.
unfoldable pub family : Encoding → Family
family Encoding.sql_ascii = Family.ascii
family Encoding.euc_jp = Family.euc_jp
family Encoding.euc_jis2004 = Family.euc_jp
family Encoding.euc_cn = Family.euc_cn
family Encoding.euc_kr = Family.euc_kr
family Encoding.euc_tw = Family.euc_tw
family Encoding.utf8 = Family.utf8
family Encoding.mule_internal = Family.mule
family Encoding.sjis = Family.sjis
family Encoding.shift_jis2004 = Family.sjis
family Encoding.big5 = Family.big5
family Encoding.gbk = Family.gbk
family Encoding.uhc = Family.uhc
family Encoding.gb18030 = Family.gb18030
family Encoding.johab = Family.johab
family _ = Family.latin1

-- `Encoding::max_length`, by the family.
abbrev pub family_max_length : Family → ℕ
family_max_length Family.ascii = 1
family_max_length Family.latin1 = 1
family_max_length Family.sjis = 2
family_max_length Family.big5 = 2
family_max_length Family.gbk = 2
family_max_length Family.uhc = 2
family_max_length Family.euc_jp = 3
family_max_length Family.euc_cn = 3
family_max_length Family.euc_kr = 3
family_max_length Family.johab = 3
family_max_length Family.euc_tw = 4
family_max_length Family.utf8 = 4
family_max_length Family.mule = 4
family_max_length Family.gb18030 = 4

unfoldable pub max_length : Encoding → ℕ
max_length e = family_max_length (family e)
