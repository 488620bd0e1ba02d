-- ===== src/Unicode/Tables/ToLower.antt =====
-- irccd/unicode.c: the tables of conversion to lower case.
use irccd.Base.{ℕ, List, [], ◌∷◌}

abbrev pub tolowerr : List (ℕ × ℕ × ℕ)
tolowerr =
    (0x0041, 0x005a, 1048608)
    ∷ (0x00c0, 0x00d6, 1048608)
    ∷ (0x00d8, 0x00de, 1048608)
    ∷ (0x0189, 0x018a, 1048781)
    ∷ (0x01b1, 0x01b2, 1048793)
    ∷ (0x0388, 0x038a, 1048613)
    ∷ (0x038e, 0x038f, 1048639)
    ∷ (0x0391, 0x03a1, 1048608)
    ∷ (0x03a3, 0x03ab, 1048608)
    ∷ (0x03fd, 0x03ff, 1048446)
    ∷ (0x0400, 0x040f, 1048656)
    ∷ (0x0410, 0x042f, 1048608)
    ∷ (0x0531, 0x0556, 1048624)
    ∷ (0x10a0, 0x10c5, 1055840)
    ∷ (0x13a0, 0x13ef, 1087440)
    ∷ (0x13f0, 0x13f5, 1048584)
    ∷ (0x1c90, 0x1cba, 1045568)
    ∷ (0x1cbd, 0x1cbf, 1045568)
    ∷ (0x1f08, 0x1f0f, 1048568)
    ∷ (0x1f18, 0x1f1d, 1048568)
    ∷ (0x1f28, 0x1f2f, 1048568)
    ∷ (0x1f38, 0x1f3f, 1048568)
    ∷ (0x1f48, 0x1f4d, 1048568)
    ∷ (0x1f68, 0x1f6f, 1048568)
    ∷ (0x1f88, 0x1f8f, 1048568)
    ∷ (0x1f98, 0x1f9f, 1048568)
    ∷ (0x1fa8, 0x1faf, 1048568)
    ∷ (0x1fb8, 0x1fb9, 1048568)
    ∷ (0x1fba, 0x1fbb, 1048502)
    ∷ (0x1fc8, 0x1fcb, 1048490)
    ∷ (0x1fd8, 0x1fd9, 1048568)
    ∷ (0x1fda, 0x1fdb, 1048476)
    ∷ (0x1fe8, 0x1fe9, 1048568)
    ∷ (0x1fea, 0x1feb, 1048464)
    ∷ (0x1ff8, 0x1ff9, 1048448)
    ∷ (0x1ffa, 0x1ffb, 1048450)
    ∷ (0x2160, 0x216f, 1048592)
    ∷ (0x24b6, 0x24cf, 1048602)
    ∷ (0x2c00, 0x2c2e, 1048624)
    ∷ (0x2c7e, 0x2c7f, 1037761)
    ∷ (0xff21, 0xff3a, 1048608)
    ∷ (0x10400, 0x10427, 1048616)
    ∷ (0x104b0, 0x104d3, 1048616)
    ∷ (0x10c80, 0x10cb2, 1048640)
    ∷ (0x118a0, 0x118bf, 1048608)
    ∷ (0x16e40, 0x16e5f, 1048608)
    ∷ (0x1e900, 0x1e921, 1048610)
    ∷ []

abbrev pub tolowers : List (ℕ × ℕ)
tolowers =
    (0x0100, 1048577)
    ∷ (0x0102, 1048577)
    ∷ (0x0104, 1048577)
    ∷ (0x0106, 1048577)
    ∷ (0x0108, 1048577)
    ∷ (0x010a, 1048577)
    ∷ (0x010c, 1048577)
    ∷ (0x010e, 1048577)
    ∷ (0x0110, 1048577)
    ∷ (0x0112, 1048577)
    ∷ (0x0114, 1048577)
    ∷ (0x0116, 1048577)
    ∷ (0x0118, 1048577)
    ∷ (0x011a, 1048577)
    ∷ (0x011c, 1048577)
    ∷ (0x011e, 1048577)
    ∷ (0x0120, 1048577)
    ∷ (0x0122, 1048577)
    ∷ (0x0124, 1048577)
    ∷ (0x0126, 1048577)
    ∷ (0x0128, 1048577)
    ∷ (0x012a, 1048577)
    ∷ (0x012c, 1048577)
    ∷ (0x012e, 1048577)
    ∷ (0x0130, 1048377)
    ∷ (0x0132, 1048577)
    ∷ (0x0134, 1048577)
    ∷ (0x0136, 1048577)
    ∷ (0x0139, 1048577)
    ∷ (0x013b, 1048577)
    ∷ (0x013d, 1048577)
    ∷ (0x013f, 1048577)
    ∷ (0x0141, 1048577)
    ∷ (0x0143, 1048577)
    ∷ (0x0145, 1048577)
    ∷ (0x0147, 1048577)
    ∷ (0x014a, 1048577)
    ∷ (0x014c, 1048577)
    ∷ (0x014e, 1048577)
    ∷ (0x0150, 1048577)
    ∷ (0x0152, 1048577)
    ∷ (0x0154, 1048577)
    ∷ (0x0156, 1048577)
    ∷ (0x0158, 1048577)
    ∷ (0x015a, 1048577)
    ∷ (0x015c, 1048577)
    ∷ (0x015e, 1048577)
    ∷ (0x0160, 1048577)
    ∷ (0x0162, 1048577)
    ∷ (0x0164, 1048577)
    ∷ (0x0166, 1048577)
    ∷ (0x0168, 1048577)
    ∷ (0x016a, 1048577)
    ∷ (0x016c, 1048577)
    ∷ (0x016e, 1048577)
    ∷ (0x0170, 1048577)
    ∷ (0x0172, 1048577)
    ∷ (0x0174, 1048577)
    ∷ (0x0176, 1048577)
    ∷ (0x0178, 1048455)
    ∷ (0x0179, 1048577)
    ∷ (0x017b, 1048577)
    ∷ (0x017d, 1048577)
    ∷ (0x0181, 1048786)
    ∷ (0x0182, 1048577)
    ∷ (0x0184, 1048577)
    ∷ (0x0186, 1048782)
    ∷ (0x0187, 1048577)
    ∷ (0x018b, 1048577)
    ∷ (0x018e, 1048655)
    ∷ (0x018f, 1048778)
    ∷ (0x0190, 1048779)
    ∷ (0x0191, 1048577)
    ∷ (0x0193, 1048781)
    ∷ (0x0194, 1048783)
    ∷ (0x0196, 1048787)
    ∷ (0x0197, 1048785)
    ∷ (0x0198, 1048577)
    ∷ (0x019c, 1048787)
    ∷ (0x019d, 1048789)
    ∷ (0x019f, 1048790)
    ∷ (0x01a0, 1048577)
    ∷ (0x01a2, 1048577)
    ∷ (0x01a4, 1048577)
    ∷ (0x01a6, 1048794)
    ∷ (0x01a7, 1048577)
    ∷ (0x01a9, 1048794)
    ∷ (0x01ac, 1048577)
    ∷ (0x01ae, 1048794)
    ∷ (0x01af, 1048577)
    ∷ (0x01b3, 1048577)
    ∷ (0x01b5, 1048577)
    ∷ (0x01b7, 1048795)
    ∷ (0x01b8, 1048577)
    ∷ (0x01bc, 1048577)
    ∷ (0x01c4, 1048578)
    ∷ (0x01c5, 1048577)
    ∷ (0x01c7, 1048578)
    ∷ (0x01c8, 1048577)
    ∷ (0x01ca, 1048578)
    ∷ (0x01cb, 1048577)
    ∷ (0x01cd, 1048577)
    ∷ (0x01cf, 1048577)
    ∷ (0x01d1, 1048577)
    ∷ (0x01d3, 1048577)
    ∷ (0x01d5, 1048577)
    ∷ (0x01d7, 1048577)
    ∷ (0x01d9, 1048577)
    ∷ (0x01db, 1048577)
    ∷ (0x01de, 1048577)
    ∷ (0x01e0, 1048577)
    ∷ (0x01e2, 1048577)
    ∷ (0x01e4, 1048577)
    ∷ (0x01e6, 1048577)
    ∷ (0x01e8, 1048577)
    ∷ (0x01ea, 1048577)
    ∷ (0x01ec, 1048577)
    ∷ (0x01ee, 1048577)
    ∷ (0x01f1, 1048578)
    ∷ (0x01f2, 1048577)
    ∷ (0x01f4, 1048577)
    ∷ (0x01f6, 1048479)
    ∷ (0x01f7, 1048520)
    ∷ (0x01f8, 1048577)
    ∷ (0x01fa, 1048577)
    ∷ (0x01fc, 1048577)
    ∷ (0x01fe, 1048577)
    ∷ (0x0200, 1048577)
    ∷ (0x0202, 1048577)
    ∷ (0x0204, 1048577)
    ∷ (0x0206, 1048577)
    ∷ (0x0208, 1048577)
    ∷ (0x020a, 1048577)
    ∷ (0x020c, 1048577)
    ∷ (0x020e, 1048577)
    ∷ (0x0210, 1048577)
    ∷ (0x0212, 1048577)
    ∷ (0x0214, 1048577)
    ∷ (0x0216, 1048577)
    ∷ (0x0218, 1048577)
    ∷ (0x021a, 1048577)
    ∷ (0x021c, 1048577)
    ∷ (0x021e, 1048577)
    ∷ (0x0220, 1048446)
    ∷ (0x0222, 1048577)
    ∷ (0x0224, 1048577)
    ∷ (0x0226, 1048577)
    ∷ (0x0228, 1048577)
    ∷ (0x022a, 1048577)
    ∷ (0x022c, 1048577)
    ∷ (0x022e, 1048577)
    ∷ (0x0230, 1048577)
    ∷ (0x0232, 1048577)
    ∷ (0x023a, 1059371)
    ∷ (0x023b, 1048577)
    ∷ (0x023d, 1048413)
    ∷ (0x023e, 1059368)
    ∷ (0x0241, 1048577)
    ∷ (0x0243, 1048381)
    ∷ (0x0244, 1048645)
    ∷ (0x0245, 1048647)
    ∷ (0x0246, 1048577)
    ∷ (0x0248, 1048577)
    ∷ (0x024a, 1048577)
    ∷ (0x024c, 1048577)
    ∷ (0x024e, 1048577)
    ∷ (0x0370, 1048577)
    ∷ (0x0372, 1048577)
    ∷ (0x0376, 1048577)
    ∷ (0x037f, 1048692)
    ∷ (0x0386, 1048614)
    ∷ (0x038c, 1048640)
    ∷ (0x03cf, 1048584)
    ∷ (0x03d8, 1048577)
    ∷ (0x03da, 1048577)
    ∷ (0x03dc, 1048577)
    ∷ (0x03de, 1048577)
    ∷ (0x03e0, 1048577)
    ∷ (0x03e2, 1048577)
    ∷ (0x03e4, 1048577)
    ∷ (0x03e6, 1048577)
    ∷ (0x03e8, 1048577)
    ∷ (0x03ea, 1048577)
    ∷ (0x03ec, 1048577)
    ∷ (0x03ee, 1048577)
    ∷ (0x03f4, 1048516)
    ∷ (0x03f7, 1048577)
    ∷ (0x03f9, 1048569)
    ∷ (0x03fa, 1048577)
    ∷ (0x0460, 1048577)
    ∷ (0x0462, 1048577)
    ∷ (0x0464, 1048577)
    ∷ (0x0466, 1048577)
    ∷ (0x0468, 1048577)
    ∷ (0x046a, 1048577)
    ∷ (0x046c, 1048577)
    ∷ (0x046e, 1048577)
    ∷ (0x0470, 1048577)
    ∷ (0x0472, 1048577)
    ∷ (0x0474, 1048577)
    ∷ (0x0476, 1048577)
    ∷ (0x0478, 1048577)
    ∷ (0x047a, 1048577)
    ∷ (0x047c, 1048577)
    ∷ (0x047e, 1048577)
    ∷ (0x0480, 1048577)
    ∷ (0x048a, 1048577)
    ∷ (0x048c, 1048577)
    ∷ (0x048e, 1048577)
    ∷ (0x0490, 1048577)
    ∷ (0x0492, 1048577)
    ∷ (0x0494, 1048577)
    ∷ (0x0496, 1048577)
    ∷ (0x0498, 1048577)
    ∷ (0x049a, 1048577)
    ∷ (0x049c, 1048577)
    ∷ (0x049e, 1048577)
    ∷ (0x04a0, 1048577)
    ∷ (0x04a2, 1048577)
    ∷ (0x04a4, 1048577)
    ∷ (0x04a6, 1048577)
    ∷ (0x04a8, 1048577)
    ∷ (0x04aa, 1048577)
    ∷ (0x04ac, 1048577)
    ∷ (0x04ae, 1048577)
    ∷ (0x04b0, 1048577)
    ∷ (0x04b2, 1048577)
    ∷ (0x04b4, 1048577)
    ∷ (0x04b6, 1048577)
    ∷ (0x04b8, 1048577)
    ∷ (0x04ba, 1048577)
    ∷ (0x04bc, 1048577)
    ∷ (0x04be, 1048577)
    ∷ (0x04c0, 1048591)
    ∷ (0x04c1, 1048577)
    ∷ (0x04c3, 1048577)
    ∷ (0x04c5, 1048577)
    ∷ (0x04c7, 1048577)
    ∷ (0x04c9, 1048577)
    ∷ (0x04cb, 1048577)
    ∷ (0x04cd, 1048577)
    ∷ (0x04d0, 1048577)
    ∷ (0x04d2, 1048577)
    ∷ (0x04d4, 1048577)
    ∷ (0x04d6, 1048577)
    ∷ (0x04d8, 1048577)
    ∷ (0x04da, 1048577)
    ∷ (0x04dc, 1048577)
    ∷ (0x04de, 1048577)
    ∷ (0x04e0, 1048577)
    ∷ (0x04e2, 1048577)
    ∷ (0x04e4, 1048577)
    ∷ (0x04e6, 1048577)
    ∷ (0x04e8, 1048577)
    ∷ (0x04ea, 1048577)
    ∷ (0x04ec, 1048577)
    ∷ (0x04ee, 1048577)
    ∷ (0x04f0, 1048577)
    ∷ (0x04f2, 1048577)
    ∷ (0x04f4, 1048577)
    ∷ (0x04f6, 1048577)
    ∷ (0x04f8, 1048577)
    ∷ (0x04fa, 1048577)
    ∷ (0x04fc, 1048577)
    ∷ (0x04fe, 1048577)
    ∷ (0x0500, 1048577)
    ∷ (0x0502, 1048577)
    ∷ (0x0504, 1048577)
    ∷ (0x0506, 1048577)
    ∷ (0x0508, 1048577)
    ∷ (0x050a, 1048577)
    ∷ (0x050c, 1048577)
    ∷ (0x050e, 1048577)
    ∷ (0x0510, 1048577)
    ∷ (0x0512, 1048577)
    ∷ (0x0514, 1048577)
    ∷ (0x0516, 1048577)
    ∷ (0x0518, 1048577)
    ∷ (0x051a, 1048577)
    ∷ (0x051c, 1048577)
    ∷ (0x051e, 1048577)
    ∷ (0x0520, 1048577)
    ∷ (0x0522, 1048577)
    ∷ (0x0524, 1048577)
    ∷ (0x0526, 1048577)
    ∷ (0x0528, 1048577)
    ∷ (0x052a, 1048577)
    ∷ (0x052c, 1048577)
    ∷ (0x052e, 1048577)
    ∷ (0x10c7, 1055840)
    ∷ (0x10cd, 1055840)
    ∷ (0x1e00, 1048577)
    ∷ (0x1e02, 1048577)
    ∷ (0x1e04, 1048577)
    ∷ (0x1e06, 1048577)
    ∷ (0x1e08, 1048577)
    ∷ (0x1e0a, 1048577)
    ∷ (0x1e0c, 1048577)
    ∷ (0x1e0e, 1048577)
    ∷ (0x1e10, 1048577)
    ∷ (0x1e12, 1048577)
    ∷ (0x1e14, 1048577)
    ∷ (0x1e16, 1048577)
    ∷ (0x1e18, 1048577)
    ∷ (0x1e1a, 1048577)
    ∷ (0x1e1c, 1048577)
    ∷ (0x1e1e, 1048577)
    ∷ (0x1e20, 1048577)
    ∷ (0x1e22, 1048577)
    ∷ (0x1e24, 1048577)
    ∷ (0x1e26, 1048577)
    ∷ (0x1e28, 1048577)
    ∷ (0x1e2a, 1048577)
    ∷ (0x1e2c, 1048577)
    ∷ (0x1e2e, 1048577)
    ∷ (0x1e30, 1048577)
    ∷ (0x1e32, 1048577)
    ∷ (0x1e34, 1048577)
    ∷ (0x1e36, 1048577)
    ∷ (0x1e38, 1048577)
    ∷ (0x1e3a, 1048577)
    ∷ (0x1e3c, 1048577)
    ∷ (0x1e3e, 1048577)
    ∷ (0x1e40, 1048577)
    ∷ (0x1e42, 1048577)
    ∷ (0x1e44, 1048577)
    ∷ (0x1e46, 1048577)
    ∷ (0x1e48, 1048577)
    ∷ (0x1e4a, 1048577)
    ∷ (0x1e4c, 1048577)
    ∷ (0x1e4e, 1048577)
    ∷ (0x1e50, 1048577)
    ∷ (0x1e52, 1048577)
    ∷ (0x1e54, 1048577)
    ∷ (0x1e56, 1048577)
    ∷ (0x1e58, 1048577)
    ∷ (0x1e5a, 1048577)
    ∷ (0x1e5c, 1048577)
    ∷ (0x1e5e, 1048577)
    ∷ (0x1e60, 1048577)
    ∷ (0x1e62, 1048577)
    ∷ (0x1e64, 1048577)
    ∷ (0x1e66, 1048577)
    ∷ (0x1e68, 1048577)
    ∷ (0x1e6a, 1048577)
    ∷ (0x1e6c, 1048577)
    ∷ (0x1e6e, 1048577)
    ∷ (0x1e70, 1048577)
    ∷ (0x1e72, 1048577)
    ∷ (0x1e74, 1048577)
    ∷ (0x1e76, 1048577)
    ∷ (0x1e78, 1048577)
    ∷ (0x1e7a, 1048577)
    ∷ (0x1e7c, 1048577)
    ∷ (0x1e7e, 1048577)
    ∷ (0x1e80, 1048577)
    ∷ (0x1e82, 1048577)
    ∷ (0x1e84, 1048577)
    ∷ (0x1e86, 1048577)
    ∷ (0x1e88, 1048577)
    ∷ (0x1e8a, 1048577)
    ∷ (0x1e8c, 1048577)
    ∷ (0x1e8e, 1048577)
    ∷ (0x1e90, 1048577)
    ∷ (0x1e92, 1048577)
    ∷ (0x1e94, 1048577)
    ∷ (0x1e9e, 1040961)
    ∷ (0x1ea0, 1048577)
    ∷ (0x1ea2, 1048577)
    ∷ (0x1ea4, 1048577)
    ∷ (0x1ea6, 1048577)
    ∷ (0x1ea8, 1048577)
    ∷ (0x1eaa, 1048577)
    ∷ (0x1eac, 1048577)
    ∷ (0x1eae, 1048577)
    ∷ (0x1eb0, 1048577)
    ∷ (0x1eb2, 1048577)
    ∷ (0x1eb4, 1048577)
    ∷ (0x1eb6, 1048577)
    ∷ (0x1eb8, 1048577)
    ∷ (0x1eba, 1048577)
    ∷ (0x1ebc, 1048577)
    ∷ (0x1ebe, 1048577)
    ∷ (0x1ec0, 1048577)
    ∷ (0x1ec2, 1048577)
    ∷ (0x1ec4, 1048577)
    ∷ (0x1ec6, 1048577)
    ∷ (0x1ec8, 1048577)
    ∷ (0x1eca, 1048577)
    ∷ (0x1ecc, 1048577)
    ∷ (0x1ece, 1048577)
    ∷ (0x1ed0, 1048577)
    ∷ (0x1ed2, 1048577)
    ∷ (0x1ed4, 1048577)
    ∷ (0x1ed6, 1048577)
    ∷ (0x1ed8, 1048577)
    ∷ (0x1eda, 1048577)
    ∷ (0x1edc, 1048577)
    ∷ (0x1ede, 1048577)
    ∷ (0x1ee0, 1048577)
    ∷ (0x1ee2, 1048577)
    ∷ (0x1ee4, 1048577)
    ∷ (0x1ee6, 1048577)
    ∷ (0x1ee8, 1048577)
    ∷ (0x1eea, 1048577)
    ∷ (0x1eec, 1048577)
    ∷ (0x1eee, 1048577)
    ∷ (0x1ef0, 1048577)
    ∷ (0x1ef2, 1048577)
    ∷ (0x1ef4, 1048577)
    ∷ (0x1ef6, 1048577)
    ∷ (0x1ef8, 1048577)
    ∷ (0x1efa, 1048577)
    ∷ (0x1efc, 1048577)
    ∷ (0x1efe, 1048577)
    ∷ (0x1f59, 1048568)
    ∷ (0x1f5b, 1048568)
    ∷ (0x1f5d, 1048568)
    ∷ (0x1f5f, 1048568)
    ∷ (0x1fbc, 1048567)
    ∷ (0x1fcc, 1048567)
    ∷ (0x1fec, 1048569)
    ∷ (0x1ffc, 1048567)
    ∷ (0x2126, 1041059)
    ∷ (0x212a, 1040193)
    ∷ (0x212b, 1040314)
    ∷ (0x2132, 1048604)
    ∷ (0x2183, 1048577)
    ∷ (0x2c60, 1048577)
    ∷ (0x2c62, 1037833)
    ∷ (0x2c63, 1044762)
    ∷ (0x2c64, 1037849)
    ∷ (0x2c67, 1048577)
    ∷ (0x2c69, 1048577)
    ∷ (0x2c6b, 1048577)
    ∷ (0x2c6d, 1037796)
    ∷ (0x2c6e, 1037827)
    ∷ (0x2c6f, 1037793)
    ∷ (0x2c70, 1037794)
    ∷ (0x2c72, 1048577)
    ∷ (0x2c75, 1048577)
    ∷ (0x2c80, 1048577)
    ∷ (0x2c82, 1048577)
    ∷ (0x2c84, 1048577)
    ∷ (0x2c86, 1048577)
    ∷ (0x2c88, 1048577)
    ∷ (0x2c8a, 1048577)
    ∷ (0x2c8c, 1048577)
    ∷ (0x2c8e, 1048577)
    ∷ (0x2c90, 1048577)
    ∷ (0x2c92, 1048577)
    ∷ (0x2c94, 1048577)
    ∷ (0x2c96, 1048577)
    ∷ (0x2c98, 1048577)
    ∷ (0x2c9a, 1048577)
    ∷ (0x2c9c, 1048577)
    ∷ (0x2c9e, 1048577)
    ∷ (0x2ca0, 1048577)
    ∷ (0x2ca2, 1048577)
    ∷ (0x2ca4, 1048577)
    ∷ (0x2ca6, 1048577)
    ∷ (0x2ca8, 1048577)
    ∷ (0x2caa, 1048577)
    ∷ (0x2cac, 1048577)
    ∷ (0x2cae, 1048577)
    ∷ (0x2cb0, 1048577)
    ∷ (0x2cb2, 1048577)
    ∷ (0x2cb4, 1048577)
    ∷ (0x2cb6, 1048577)
    ∷ (0x2cb8, 1048577)
    ∷ (0x2cba, 1048577)
    ∷ (0x2cbc, 1048577)
    ∷ (0x2cbe, 1048577)
    ∷ (0x2cc0, 1048577)
    ∷ (0x2cc2, 1048577)
    ∷ (0x2cc4, 1048577)
    ∷ (0x2cc6, 1048577)
    ∷ (0x2cc8, 1048577)
    ∷ (0x2cca, 1048577)
    ∷ (0x2ccc, 1048577)
    ∷ (0x2cce, 1048577)
    ∷ (0x2cd0, 1048577)
    ∷ (0x2cd2, 1048577)
    ∷ (0x2cd4, 1048577)
    ∷ (0x2cd6, 1048577)
    ∷ (0x2cd8, 1048577)
    ∷ (0x2cda, 1048577)
    ∷ (0x2cdc, 1048577)
    ∷ (0x2cde, 1048577)
    ∷ (0x2ce0, 1048577)
    ∷ (0x2ce2, 1048577)
    ∷ (0x2ceb, 1048577)
    ∷ (0x2ced, 1048577)
    ∷ (0x2cf2, 1048577)
    ∷ (0xa640, 1048577)
    ∷ (0xa642, 1048577)
    ∷ (0xa644, 1048577)
    ∷ (0xa646, 1048577)
    ∷ (0xa648, 1048577)
    ∷ (0xa64a, 1048577)
    ∷ (0xa64c, 1048577)
    ∷ (0xa64e, 1048577)
    ∷ (0xa650, 1048577)
    ∷ (0xa652, 1048577)
    ∷ (0xa654, 1048577)
    ∷ (0xa656, 1048577)
    ∷ (0xa658, 1048577)
    ∷ (0xa65a, 1048577)
    ∷ (0xa65c, 1048577)
    ∷ (0xa65e, 1048577)
    ∷ (0xa660, 1048577)
    ∷ (0xa662, 1048577)
    ∷ (0xa664, 1048577)
    ∷ (0xa666, 1048577)
    ∷ (0xa668, 1048577)
    ∷ (0xa66a, 1048577)
    ∷ (0xa66c, 1048577)
    ∷ (0xa680, 1048577)
    ∷ (0xa682, 1048577)
    ∷ (0xa684, 1048577)
    ∷ (0xa686, 1048577)
    ∷ (0xa688, 1048577)
    ∷ (0xa68a, 1048577)
    ∷ (0xa68c, 1048577)
    ∷ (0xa68e, 1048577)
    ∷ (0xa690, 1048577)
    ∷ (0xa692, 1048577)
    ∷ (0xa694, 1048577)
    ∷ (0xa696, 1048577)
    ∷ (0xa698, 1048577)
    ∷ (0xa69a, 1048577)
    ∷ (0xa722, 1048577)
    ∷ (0xa724, 1048577)
    ∷ (0xa726, 1048577)
    ∷ (0xa728, 1048577)
    ∷ (0xa72a, 1048577)
    ∷ (0xa72c, 1048577)
    ∷ (0xa72e, 1048577)
    ∷ (0xa732, 1048577)
    ∷ (0xa734, 1048577)
    ∷ (0xa736, 1048577)
    ∷ (0xa738, 1048577)
    ∷ (0xa73a, 1048577)
    ∷ (0xa73c, 1048577)
    ∷ (0xa73e, 1048577)
    ∷ (0xa740, 1048577)
    ∷ (0xa742, 1048577)
    ∷ (0xa744, 1048577)
    ∷ (0xa746, 1048577)
    ∷ (0xa748, 1048577)
    ∷ (0xa74a, 1048577)
    ∷ (0xa74c, 1048577)
    ∷ (0xa74e, 1048577)
    ∷ (0xa750, 1048577)
    ∷ (0xa752, 1048577)
    ∷ (0xa754, 1048577)
    ∷ (0xa756, 1048577)
    ∷ (0xa758, 1048577)
    ∷ (0xa75a, 1048577)
    ∷ (0xa75c, 1048577)
    ∷ (0xa75e, 1048577)
    ∷ (0xa760, 1048577)
    ∷ (0xa762, 1048577)
    ∷ (0xa764, 1048577)
    ∷ (0xa766, 1048577)
    ∷ (0xa768, 1048577)
    ∷ (0xa76a, 1048577)
    ∷ (0xa76c, 1048577)
    ∷ (0xa76e, 1048577)
    ∷ (0xa779, 1048577)
    ∷ (0xa77b, 1048577)
    ∷ (0xa77d, 1013244)
    ∷ (0xa77e, 1048577)
    ∷ (0xa780, 1048577)
    ∷ (0xa782, 1048577)
    ∷ (0xa784, 1048577)
    ∷ (0xa786, 1048577)
    ∷ (0xa78b, 1048577)
    ∷ (0xa78d, 1006296)
    ∷ (0xa790, 1048577)
    ∷ (0xa792, 1048577)
    ∷ (0xa796, 1048577)
    ∷ (0xa798, 1048577)
    ∷ (0xa79a, 1048577)
    ∷ (0xa79c, 1048577)
    ∷ (0xa79e, 1048577)
    ∷ (0xa7a0, 1048577)
    ∷ (0xa7a2, 1048577)
    ∷ (0xa7a4, 1048577)
    ∷ (0xa7a6, 1048577)
    ∷ (0xa7a8, 1048577)
    ∷ (0xa7aa, 1006268)
    ∷ (0xa7ab, 1006257)
    ∷ (0xa7ac, 1006261)
    ∷ (0xa7ad, 1006271)
    ∷ (0xa7ae, 1006268)
    ∷ (0xa7b0, 1006318)
    ∷ (0xa7b1, 1006294)
    ∷ (0xa7b2, 1006315)
    ∷ (0xa7b3, 1049504)
    ∷ (0xa7b4, 1048577)
    ∷ (0xa7b6, 1048577)
    ∷ (0xa7b8, 1048577)
    ∷ (0xa7ba, 1048577)
    ∷ (0xa7bc, 1048577)
    ∷ (0xa7be, 1048577)
    ∷ (0xa7c2, 1048577)
    ∷ (0xa7c4, 1048528)
    ∷ (0xa7c5, 1006269)
    ∷ (0xa7c6, 1013192)
    ∷ (0xa7c7, 1048577)
    ∷ (0xa7c9, 1048577)
    ∷ (0xa7f5, 1048577)
    ∷ []
