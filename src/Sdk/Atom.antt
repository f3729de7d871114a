-- ===== src/Sdk/Atom.antt =====
-- The module `atom` of sdk-rust/src/lib.rs.
use wasibrowser.Prelude.{ℕ}

abbrev pub div : ℕ
div = 1

abbrev pub span : ℕ
span = 2

abbrev pub p : ℕ
p = 3

abbrev pub h1 : ℕ
h1 = 4

abbrev pub h2 : ℕ
h2 = 5

abbrev pub h3 : ℕ
h3 = 6

abbrev pub button : ℕ
button = 7

abbrev pub input : ℕ
input = 8

abbrev pub attr_class : ℕ
attr_class = 100

abbrev pub attr_id : ℕ
attr_id = 101

abbrev pub attr_style : ℕ
attr_style = 102

abbrev pub attr_value : ℕ
attr_value = 104

abbrev pub attr_type : ℕ
attr_type = 105

abbrev pub attr_placeholder : ℕ
attr_placeholder = 106

abbrev pub style_display : ℕ
style_display = 200

abbrev pub style_color : ℕ
style_color = 201

abbrev pub style_background : ℕ
style_background = 202

abbrev pub style_width : ℕ
style_width = 203

abbrev pub style_height : ℕ
style_height = 204

abbrev pub style_margin : ℕ
style_margin = 205

abbrev pub style_padding : ℕ
style_padding = 206

abbrev pub style_border : ℕ
style_border = 207

abbrev pub style_font_size : ℕ
style_font_size = 208

abbrev pub style_gap : ℕ
style_gap = 210

abbrev pub style_border_radius : ℕ
style_border_radius = 214

abbrev pub style_cursor : ℕ
style_cursor = 215
