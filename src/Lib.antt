-- ===== src/Lib.antt =====
-- Verification library of Communication-Protocols: three programs, a software router
-- (Packet-Routing-IP-Eth), a web client (Client-Web-RestAPI) and a message server with its
-- subscribers (Client-Server-TCP-UDP).
--
-- The router. `main` of router.c reads the routing table, sorts it, and then handles one packet in
-- each round of its loop: it answers echo requests and ARP requests, reports unreachable networks
-- and expired packets, learns from ARP replies, and forwards.
--   Routing/Table     router.c: swap, partition, quicksort, binarySearch, get_best_route
--   Routing/Checksum  skel.c: ip_checksum
--   Routing/Hwaddr    skel.c: hex2num, hex2byte, hwaddr_aton
--   Routing/Queue     queue.c and list.c, on an explicit heap
--   Routing/Packet    include/skel.h: packet, with its headers as bytes at fixed places
--   Routing/Icmp      router.c, main: the echo reply, destination unreachable, time exceeded
--   Routing/Arp       router.c, main: the ARP packets and the ARP table
--   Routing/Router    router.c, main: the loop, and skel.c: get_packet, send_packet
--   Routing/Start     router.c: read_rtable, and main before the loop
-- The global variables and the packet of `main` are the record Router; a handler takes it and gives
-- the new one with the packets sent, in order. A read or a write outside an array is a `fault`, but
-- for the read of `arp_table[-1]`, whose bytes are a parameter and are sent. The queue of the loop
-- is a list, which Routing/Queue implements, and holds the address of the one packet. Words are
-- native numbers with their wrap-around written out; fields are little-endian, as on the machines
-- that the program runs on.
--
-- Fuel: the sort and the search take as much as the range has entries, and each call is on a
-- smaller range; the folding loop of the checksum takes four rounds, after which a sum below 2 ^ 33
-- fits in 16 bits; the address parser has its six rounds. The walk of get_best_route goes down from
-- the index that it starts at.
--
-- Parameters: what select, read and ioctl give (the events and the record System), the address of
-- the packet, the bytes in front of the ARP table, the addresses that malloc gives, and the C
-- library's sscanf, inet_addr and atoi (the record Parser). Not modelled: opening sockets, exits on
-- a failing system call, and the bounds of the lines of rtable.txt.
--
-- The web client. helpers.c builds the requests and reads the responses into the buffer of
-- buffer.c.
--   Web/Buffer        buffer.c
--   Web/Http          helpers.c: compute_message, compute_get_request, compute_post_request,
--                     compute_delete_request, basic_extract_json_response
--   Web/Send          helpers.c: send_to_server
--   Web/Receive       helpers.c: receive_from_server
--   Web/Client        client.c: isNumber, and main as a session over its commands
--   Web/Exchange      one command of client.c with its writes and reads
-- A C string is the list of its bytes without the final 0. The chunks that read gives are a list,
-- and strtol is a parameter; both loops are recursion on the chunks. A write past the end of a
-- buffer of a request is `none`. The decimal printing has fuel for 20 digits, as many as a 64-bit
-- number has. What a search of the buffer returns, header_end and content_length_start are ints of
-- 32 bits, and a sum of them that overflows, which C leaves open, wraps around. The session's
-- cookie and token are the record Session; the JSON library and atoi are parameters. Not modelled:
-- opening and closing the socket, and the blocks that scanf reads words into.
--
-- The message server. server.cpp waits for connections of subscribers, their commands, and
-- datagrams of publishers; helpers.cpp has its data and their decoding; subscriber.cpp is the other
-- side.
--   Messages/Topics      helpers.cpp: add_topic, remove_topic, check_subscription, check_sf_active
--   Messages/Command     helpers.cpp: decode_message
--   Messages/Datagram    helpers.cpp: is_valid_udp_message, decode_udp_message; the packets of a
--                        publisher, whose program is not in the repository, in its Packets
--   Messages/Server      helpers.cpp: add_client_to_clients, get_client, check_unique_id, and
--                        server.cpp: main, with its handlers in Messages/Server/Handlers
--   Messages/Subscriber  subscriber.cpp: main
--   Messages/Session     the two programs together
--   Messages/Memory      helpers.cpp: the lists of topics, pending texts and clients as nodes in
--                        memory, and free_string_list, free_client, free_clients
-- The variables of the server's main are the record ServerState, with the clients on a heap, a
-- function from addresses, that both of its lists point to; the std::map is the list of its pairs
-- in order. A handler takes the state and an input and gives the new state with the packets sent;
-- `none` is a write or a read out of bounds. The buffer that all handlers share is part of each
-- input: what the bytes received do not overwrite may be any bytes, since of the calls of memset
-- that should clear it only the one before a command does. What the subscriber gets is any bytes in
-- any parts. Messages/Memory has as nodes in memory the lists that the other modules have as
-- values: a function takes a memory and the addresses that malloc gives, and gives the new memory,
-- or `none` where a block is read or freed that is not allocated. Fuel: the decimal printing has 20
-- digits, and a loop on a list in memory has more than its nodes; all else is recursion on the
-- lists. Parameters: what select, accept, recv, recvfrom, fgets and inet_ntoa give, the addresses
-- that malloc gives, the block that it gives for a client (with what stands in its unset pointers),
-- and the text of a double (the record Doubles). Not modelled: opening sockets, exits on a failing
-- system call, and prints, print_client of helpers.cpp among them.
--
-- The rest of the repository is not modelled: the JSON library parson.c, which is a copy of another
-- project's, and the test scripts.
pub mod Base
pub mod Routing
pub mod Web
pub mod Messages
